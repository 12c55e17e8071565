-- ===== src/Uuid/Spellings.antt =====
-- A UUID with hyphens and one without, of the same digits, are the same to BlueZ.
use bluetooth_le.Prelude.{
  ℕ, ◌<◌, ◌≡◌, refl, ap, sym, ◌∙◌, true, [], ◌∷◌, ◌++◌, map, some, Text, Lacks, length,
  length-append, length-map, arith, zero, suc,
}
use bluetooth_le.Uuid.Format.{remove-append, remove-Lacks, remove-hyphen}
use bluetooth_le.Uuid.{
  GattUuid, hyphen, hyphen_at, is_xdigit, all_xdigits, validate, make, remove, to_lower,
  to_blue_z_format,
}

hyphen_at-append : (s t : Text) (n : ℕ) → length s ≡ n → hyphen_at (s ++ hyphen ∷ t) n ≡ true
unfolding hyphen_at
hyphen_at-append [] t n e = rw (← e) refl
hyphen_at-append (c ∷ s) t n e = rw (← e) (hyphen_at-append s t (length s) refl)

hyphen_at-append_left : (s t : Text) (n : ℕ) → n < length s → hyphen_at (s ++ t) n ≡ hyphen_at s n
unfolding hyphen_at
hyphen_at-append_left [] t n h = elim h [ ]
hyphen_at-append_left (c ∷ s) t zero h = refl
hyphen_at-append_left (c ∷ s) t (suc n) h = hyphen_at-append_left s t n (omega arith)

-- The five groups of a UUID, with hyphens between them and without.
abbrev pub hyphenated : Text → Text → Text → Text → Text → Text
hyphenated a b c d e = a ++ hyphen ∷ b ++ hyphen ∷ c ++ hyphen ∷ d ++ hyphen ∷ e

abbrev pub plain : Text → Text → Text → Text → Text → Text
plain a b c d e = a ++ b ++ c ++ d ++ e

-- Groups of 8, 4, 4, 4 and 12 hexadecimal digits.
pub record IsGroups (a b c d e : Text) : Type 0 where
  pub length_a : length a ≡ 8
  pub length_b : length b ≡ 4
  pub length_c : length c ≡ 4
  pub length_d : length d ≡ 4
  pub length_e : length e ≡ 12
  pub xdigits : all_xdigits (plain a b c d e) ≡ true

xdigits_cases :
    (c : ℕ) (s : Text) → all_xdigits (c ∷ s) ≡ true → (is_xdigit c ≡ true) × (all_xdigits s ≡ true)
unfolding all_xdigits
xdigits_cases c s h = ground arith

xdigits-Lacks : (s : Text) → all_xdigits s ≡ true → Lacks hyphen s
xdigits-Lacks [] h = tt
xdigits-Lacks (c ∷ s) h =
    let (hc, hs) = xdigits_cases c s h in (unfold is_xdigit in ground arith, xdigits-Lacks s hs)

validate-hyphens :
    (s : Text)
    → length s ≡ 36
    → hyphen_at s 8 ≡ true
    → hyphen_at s 13 ≡ true
    → hyphen_at s 18 ≡ true
    → hyphen_at s 23 ≡ true
    → validate s ≡ true
unfolding validate
validate-hyphens s l h8 h13 h18 h23 = rw (l, h8, h13, h18, h23) refl

validate-plain : (s : Text) → length s ≡ 32 → all_xdigits s ≡ true → validate s ≡ true
unfolding validate
validate-plain s l h = rw (l, h) refl

module _ {a b c d e : Text} (g : IsGroups a b c d e) where
  open g use {length_a, length_b, length_c, length_d, length_e, xdigits}

  length-plain : length (plain a b c d e) ≡ 32
  length-plain = simp (length-append, length_a, length_b, length_c, length_d, length_e)

  length-hyphenated : length (hyphenated a b c d e) ≡ 36
  length-hyphenated = simp (length-append, length_a, length_b, length_c, length_d, length_e)

  -- The groups before a hyphen end where the hyphen is looked for.
  ends_b : length (a ++ hyphen ∷ b) ≡ 13
  ends_b = simp (length-append, length_a, length_b)

  ends_c : length (a ++ hyphen ∷ b ++ hyphen ∷ c) ≡ 18
  ends_c = simp (length-append, length_a, length_b, length_c)

  ends_d : length (a ++ hyphen ∷ b ++ hyphen ∷ c ++ hyphen ∷ d) ≡ 23
  ends_d = simp (length-append, length_a, length_b, length_c, length_d)

  hyphenated-validates : validate (hyphenated a b c d e) ≡ true
  hyphenated-validates =
      validate-hyphens _ length-hyphenated
        (left _ _ 8 ends_d (omega arith)
          ∙ left _ _ 8 ends_c (omega arith)
          ∙ left _ _ 8 ends_b (omega arith)
          ∙ hyphen_at-append a b 8 length_a)
        (left _ _ 13 ends_d (omega arith)
          ∙ left _ _ 13 ends_c (omega arith)
          ∙ hyphen_at-append _ c 13 ends_b)
        (left _ _ 18 ends_d (omega arith) ∙ hyphen_at-append _ d 18 ends_c)
        (hyphen_at-append _ e 23 ends_d)
    where
      left :
          (s t : Text) (n : ℕ) {m : ℕ} → length s ≡ m → n < m → hyphen_at (s ++ t) n ≡ hyphen_at s n
      left s t n l h = hyphen_at-append_left s t n (rw l h)

  plain-validates : validate (plain a b c d e) ≡ true
  plain-validates = validate-plain _ length-plain xdigits

  remove-plain : remove hyphen (plain a b c d e) ≡ plain a b c d e
  remove-plain = remove-Lacks hyphen _ (xdigits-Lacks _ xdigits)

  remove-hyphenated : remove hyphen (hyphenated a b c d e) ≡ plain a b c d e
  remove-hyphenated = simp remove-hyphen (simp remove-append at remove-plain)

  -- The two spellings of five groups of hexadecimal digits are both accepted, and BlueZ is given the
  -- same 32 characters for them.
  pub two_spellings :
      (u v : GattUuid) × (make (hyphenated a b c d e) ≡ some u)
      × (make (plain a b c d e) ≡ some v)
      × (to_blue_z_format u ≡ to_blue_z_format v)
      × (length (to_blue_z_format u) ≡ 32)
  unfolding make to_blue_z_format
  two_spellings = (
    record { uuid = hyphenated a b c d e },
    record { uuid = plain a b c d e },
    rw hyphenated-validates refl,
    rw plain-validates refl,
    ap (map to_lower) (remove-hyphenated ∙ sym remove-plain),
    rw (length-map, remove-hyphenated) length-plain,
  )
