-- ===== src/Print/Decimal.antt =====
-- `std::to_string` can be read back, so different numbers print differently.
use bluetooth_le.Prelude.{
  ℕ, zero, suc, ◌+◌, ◌-◌, ◌*◌, ◌/◌, ◌%◌, ◌<◌, ◌≡◌, ◌≢◌, sym, ap, ◌∙◌, [], ◌∷◌, Text, Lacks, arith,
  ltb, Bool-cases, inl, inr,
}
use bluetooth_le.Print.{digits, to_string}

pub value : ℕ → Text → ℕ
value acc [] = acc
value acc (c ∷ s) = value (acc * 10 + (c - b'0')) s

value-digits : (f n : ℕ) (out : Text) → n < f → value 0 (digits f n out) ≡ value n out
unfolding value digits
value-digits zero n out h = elim h [ ]
value-digits (suc f) n out h = elim (Bool-cases (ltb n 10)) [
  | inl small ↦ rw small (ap (λ m. value m out) (ground arith))
  | inr large ↦ rw large (
      value-digits f (n / 10) ((b'0' + n % 10) ∷ out) (ground arith)
      ∙ ap (λ m. value m out) (omega arith))
]

pub value-to_string : (n : ℕ) → value 0 (to_string n) ≡ n
unfolding value to_string
value-to_string n = value-digits (suc n) n [] (omega arith)

pub to_string-injective : (m n : ℕ) → to_string m ≡ to_string n → m ≡ n
to_string-injective m n e = sym (value-to_string m) ∙ ap (value 0) e ∙ value-to_string n

-- A printed number holds digits only, and at least one.
digits-Lacks : (b f n : ℕ) (out : Text) → b < b'0' → Lacks b out → Lacks b (digits f n out)
unfolding digits
digits-Lacks b zero n out h l = l
digits-Lacks b (suc f) n out h l = elim (Bool-cases (ltb n 10)) [
  | inl small ↦ rw small (omega arith, l)
  | inr large ↦ rw large (digits-Lacks b f (n / 10) ((b'0' + n % 10) ∷ out) h (omega arith, l))
]

pub to_string-Lacks : (b n : ℕ) → b < b'0' → Lacks b (to_string n)
unfolding to_string
to_string-Lacks b n h = digits-Lacks b (suc n) n [] h tt

digits-cons : (f n c : ℕ) (out : Text) → digits f n (c ∷ out) ≢ []
unfolding digits
digits-cons zero n c out = cc
digits-cons (suc f) n c out = elim (Bool-cases (ltb n 10)) [
  | inl small ↦ rw small (cc)
  | inr large ↦ rw large (digits-cons f (n / 10) (b'0' + n % 10) (c ∷ out))
]

pub to_string-ne-nil : (n : ℕ) → to_string n ≢ []
unfolding to_string
to_string-ne-nil n = elim (Bool-cases (ltb n 10)) [
  | inl small ↦ rw small (cc)
  | inr large ↦ rw large (digits-cons n (n / 10) (b'0' + n % 10) [])
]
