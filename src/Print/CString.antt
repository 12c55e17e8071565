-- ===== src/Print/CString.antt =====
-- `c_str` keeps a string whole if it holds no NUL byte, and only then.
use bluetooth_le.Prelude.{
  ◌≡◌, ◌↔◌, refl, subst, ◌==◌, [], ◌∷◌, Text, Lacks, arith, Bool-cases, inl, inr,
}
use bluetooth_le.Print.{c_str}

pub c_str-Lacks : (s : Text) → Lacks 0 (c_str s)
unfolding c_str
c_str-Lacks [] = tt
c_str-Lacks (c ∷ s) = elim (Bool-cases (c == 0)) [
  | inl e ↦ rw e tt
  | inr e ↦ rw e (ground arith, c_str-Lacks s)
]

pub c_str_of_Lacks : (s : Text) → Lacks 0 s → c_str s ≡ s
unfolding c_str
c_str_of_Lacks [] l = refl
c_str_of_Lacks (c ∷ s) (l, ls) = ground (arith, c_str_of_Lacks s ls)

pub c_str-eq_iff : (s : Text) → (c_str s ≡ s) ↔ Lacks 0 s
c_str-eq_iff s = (λ e. subst (Lacks 0) e (c_str-Lacks s), c_str_of_Lacks s)
