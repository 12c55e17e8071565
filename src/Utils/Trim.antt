-- ===== src/Utils/Trim.antt =====
-- What trimming leaves of a text and what it takes away.
use mathlib.Core.List.{reverse, reverse-cons, reverse-append, reverse-reverse}
use bluetooth_le.Prelude.{
  ◌≡◌, refl, sym, ap, ◌∙◌, subst, Bool, true, not, [], ◌∷◌, ◌++◌, append_assoc, Text, All,
  All-append, Bool-cases, inl, inr,
}
use bluetooth_le.Utils.{is_space, trim_begin, trim_end, trim}

-- All characters are spaces.
abbrev pub AreSpaces : Text → Type 0
AreSpaces = All (λ c. is_space c ≡ true)

-- The text does not begin with a space.
abbrev pub tight : Text → Bool
tight [] = true
tight (c ∷ s) = not (is_space c)

tight-append : (s t : Text) → tight (s ++ t) ≡ true → tight s ≡ true
tight-append [] t h = refl
tight-append (c ∷ s) t h = h

reverse-AreSpaces : (s : Text) → AreSpaces s → AreSpaces (reverse s)
reverse-AreSpaces [] a = tt
reverse-AreSpaces (c ∷ s) (h, a) =
    subst AreSpaces (sym (reverse-cons c s))
      (All-append (λ d. is_space d ≡ true) (reverse s) (c ∷ []) (reverse-AreSpaces s a) (h, tt))

trim_begin_split :
    (s : Text) → (a : Text) × (s ≡ a ++ trim_begin s) × AreSpaces a × (tight (trim_begin s) ≡ true)
unfolding trim_begin
trim_begin_split [] = ([], refl, tt, refl)
trim_begin_split (c ∷ s) = elim (Bool-cases (is_space c)) [
  | inl e ↦
      (let (a, m, sp, t) = trim_begin_split s in
        rw (e, trim_begin) (c ∷ a, ap (◌∷◌ c) m, (e, sp), t))
  | inr e ↦ rw (e, trim_begin) ([], refl, tt, ap not e)
]

trim_end_split :
    (s : Text)
    → (b : Text) × (s ≡ trim_end s ++ b) × AreSpaces b × (tight (reverse (trim_end s)) ≡ true)
unfolding trim_end
trim_end_split s =
    let (a, m, sp, t) = trim_begin_split (reverse s) in
    (
      reverse a,
      sym (reverse-reverse s) ∙ ap reverse m ∙ reverse-append a (trim_begin (reverse s)),
      reverse-AreSpaces a sp,
      ap tight (reverse-reverse (trim_begin (reverse s))) ∙ t,
    )

-- A text is what trimming leaves of it with only spaces before and behind, and what is left neither
-- begins nor ends with a space.
pub trim_exact :
    (s : Text)
    → (a b : Text) × (s ≡ a ++ trim s ++ b)
      × AreSpaces a
      × AreSpaces b
      × (tight (trim s) ≡ true)
      × (tight (reverse (trim s)) ≡ true)
unfolding trim
trim_exact s =
    let (a, m, spa, ta) = trim_begin_split s in
    let (b, n, spb, tb) = trim_end_split (trim_begin s) in
    (
      a,
      b,
      m ∙ ap (λ u. a ++ u) n ∙ sym (append_assoc a (trim s) b),
      spa,
      spb,
      tight-append (trim s) b (ap tight (sym n) ∙ ta),
      tb,
    )
