-- ===== src/Utils/Hex/Lines.antt =====
-- src/Utils.cpp: the lines of a column of the hex dump are the bytes in groups of sixteen, printed.
use bluetooth_le.Prelude.{
  ℕ, zero, suc, ◌+◌, ◌-◌, ◌<◌, ◌≤◌, ◌≡◌, refl, sym, ap, ◌∙◌, true, false, List, [], ◌∷◌, ◌++◌, Text,
  length, take, drop, map, leb, arith, All, length-append, length-take, take-append-drop,
  append_assoc, append-nil, Bool-cases, inl, inr, leb→le,
}
use bluetooth_le.Utils.Hex.{lines, leftover}

-- `n` times `k`.
abbrev pub span : ℕ → ℕ → ℕ
span k zero = 0
span k (suc n) = k + span k n

pub cells : (ℕ → Text) → List ℕ → Text
cells cell [] = []
cells cell (b ∷ bytes) = cell b ++ cells cell bytes

module _ (width k : ℕ) (cell : ℕ → Text) (cell_length : (b : ℕ) → length (cell b) ≡ k)
    (positive : 0 < k) where
  pub length-cells : (xs : List ℕ) → length (cells cell xs) ≡ span k (length xs)
  unfolding cells
  length-cells [] = refl
  length-cells (x ∷ xs) =
      omega (arith, length-append (cell x) (cells cell xs), cell_length x, length-cells xs)

  -- The byte that fills a line, and one that does not.
  line_filled :
      (line : Text) (b : ℕ) (bytes : List ℕ)
      → length line + k ≡ width
      → lines width cell (b ∷ bytes) line ≡ (line ++ cell b) ∷ lines width cell bytes []
  unfolding lines
  line_filled line b bytes h =
      (let e : leb width (length (line ++ cell b)) ≡ true =
          ground (arith, length-append line (cell b), cell_length b, h) in
        rw (e, lines) refl)

  line_grows :
      (line : Text) (b : ℕ) (bytes : List ℕ)
      → length line + k < width
      → lines width cell (b ∷ bytes) line ≡ lines width cell bytes (line ++ cell b)
  unfolding lines
  line_grows line b bytes h =
      (let e : leb width (length (line ++ cell b)) ≡ false =
          ground (arith, length-append line (cell b), cell_length b, h) in
        rw (e, lines) refl)

  -- Enough bytes to fill the line.
  lines_full :
      (n : ℕ) (line : Text) (xs rest : List ℕ)
      → length xs ≡ suc n
      → length line + span k (suc n) ≡ width
      → lines width cell (xs ++ rest) line ≡ (line ++ cells cell xs) ∷ lines width cell rest []
  unfolding cells
  lines_full n line [] rest l w = absurd (omega (arith, l))
  lines_full zero line (x ∷ []) rest l w =
      line_filled line x rest (omega (arith, w))
      ∙ ap (λ c. (line ++ c) ∷ lines width cell rest []) (sym (append-nil (cell x)))
  lines_full zero line (x ∷ y ∷ xs) rest l w = absurd (omega (arith, l))
  lines_full (suc n) line (x ∷ xs) rest l w =
      line_grows line x (xs ++ rest) (omega (arith, w, positive))
      ∙ lines_full n (line ++ cell x) xs rest (omega (arith, l))
          (omega (arith, length-append line (cell x), cell_length x, w))
      ∙ ap (λ c. c ∷ lines width cell rest []) (append_assoc line (cell x) (cells cell xs))

  lines_partial :
      (n : ℕ) (line : Text) (xs : List ℕ)
      → length xs < n
      → length line + span k n ≡ width
      → lines width cell xs line ≡ leftover (line ++ cells cell xs)
  unfolding lines cells
  lines_partial n line [] l w = ap leftover (sym (append-nil line))
  lines_partial zero line (x ∷ xs) l w = absurd (omega (arith, l))
  lines_partial (suc zero) line (x ∷ xs) l w = absurd (omega (arith, l))
  lines_partial (suc (suc n)) line (x ∷ xs) l w =
      line_grows line x xs (omega (arith, w, positive))
      ∙ lines_partial (suc n) (line ++ cell x) xs (omega (arith, l))
          (omega (arith, length-append line (cell x), cell_length x, w))
      ∙ ap leftover (append_assoc line (cell x) (cells cell xs))

-- The bytes in groups of sixteen, the last one smaller. Each group takes at least one byte, so that the
-- number of bytes is enough fuel.
pub chunks : ℕ → List ℕ → List (List ℕ)
chunks zero bytes = []
chunks (suc fuel) [] = []
chunks (suc fuel) (b ∷ bytes) = take 16 (b ∷ bytes) ∷ chunks fuel (drop 16 (b ∷ bytes))

take_short : (n : ℕ) (xs : List ℕ) → length xs ≤ n → (take n xs ≡ xs) × (drop n xs ≡ [])
take_short zero [] h = (refl, refl)
take_short (suc n) [] h = (refl, refl)
take_short zero (c ∷ s) h = absurd (omega (arith, h))
take_short (suc n) (c ∷ s) h = (let (a, b) = take_short n s (omega (arith, h)) in (ap (◌∷◌ c) a, b))

chunks_nil : (fuel : ℕ) → chunks fuel [] ≡ []
unfolding chunks
chunks_nil zero = refl
chunks_nil (suc fuel) = refl

length-drop : (n : ℕ) (xs : List ℕ) → length (drop n xs) ≡ length xs - n
length-drop zero xs = omega arith
length-drop (suc n) [] = omega arith
length-drop (suc n) (x ∷ xs) = omega (arith, length-drop n xs)

leftover_line : (line : Text) → 0 < length line → leftover line ≡ line ∷ []
leftover_line [] h = absurd (omega (arith, h))
leftover_line (c ∷ line) h = refl

module _ (k : ℕ) (cell : ℕ → Text) (cell_length : (b : ℕ) → length (cell b) ≡ k)
    (positive : 0 < k) where
  one_group :
      (fuel b : ℕ) (bytes : List ℕ)
      → take 16 (b ∷ bytes) ≡ b ∷ bytes
      → drop 16 (b ∷ bytes) ≡ []
      → cells cell (b ∷ bytes) ∷ [] ≡ map (cells cell) (chunks (suc fuel) (b ∷ bytes))
  unfolding chunks
  one_group fuel b bytes t d = rw (t, d, chunks_nil fuel) refl

  -- The lines are the groups, printed.
  pub lines-chunks :
      (fuel : ℕ) (bytes : List ℕ)
      → length bytes ≤ fuel
      → lines (span k 16) cell bytes [] ≡ map (cells cell) (chunks fuel bytes)
  unfolding chunks
  lines-chunks zero [] h = unfold lines in refl
  lines-chunks zero (b ∷ bytes) h = absurd (omega (arith, h))
  lines-chunks (suc fuel) [] h = unfold lines in refl
  lines-chunks (suc fuel) (b ∷ bytes) h = elim (Bool-cases (leb 16 (length (b ∷ bytes)))) [
    | inl e ↦
        ap (λ bs. lines (span k 16) cell bs []) (sym (take-append-drop 16 (b ∷ bytes)))
        ∙ lines_full (span k 16) k cell cell_length positive 15 [] (take 16 (b ∷ bytes))
            (drop 16 (b ∷ bytes))
            (omega (arith, length-take 16 (b ∷ bytes), leb→le 16 (length (b ∷ bytes)) e))
            (omega arith)
        ∙ ap (λ rest. cells cell (take 16 (b ∷ bytes)) ∷ rest)
            (lines-chunks fuel (drop 16 (b ∷ bytes)) (omega (arith, h, length-drop 16 (b ∷ bytes))))
    | inr e ↦
        (let small : length (b ∷ bytes) < 16 = ground (arith, e) in
          let (t, d) = take_short 16 (b ∷ bytes) (omega (arith, small)) in
          lines_partial (span k 16) k cell cell_length positive 16 [] (b ∷ bytes) small
            (omega arith)
          ∙ leftover_line (cells cell (b ∷ bytes))
              (omega (arith, length-cells 0 k cell cell_length positive (b ∷ bytes), positive))
          ∙ one_group fuel b bytes t d)
  ]

-- No group has more than sixteen bytes.
pub chunks_small : (fuel : ℕ) (bytes : List ℕ) → All (λ g. length g ≤ 16) (chunks fuel bytes)
unfolding chunks
chunks_small zero bytes = tt
chunks_small (suc fuel) [] = tt
chunks_small (suc fuel) (b ∷ bytes) =
    (omega (arith, length-take 16 (b ∷ bytes)), chunks_small fuel (drop 16 (b ∷ bytes)))
