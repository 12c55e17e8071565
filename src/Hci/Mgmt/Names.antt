-- ===== src/Hci/Mgmt/Names.antt =====
-- src/Mgmt.cpp: the names that are cut, and the command that carries them.
use bluetooth_le.Prelude.{
  ℕ, zero, suc, ◌-◌, ◌%◌, ◌≤◌, ◌≡◌, refl, sym, ap, ◌∙◌, subst, [], ◌∷◌, ◌++◌, Text, length, take,
  Lacks, leb, leb→le, arith, length-append, length-take, Bool-cases, inl, inr,
}
use bluetooth_le.Print.{c_str}
use bluetooth_le.Print.CString.{c_str_of_Lacks}
use bluetooth_le.Hci.System.{System}
use bluetooth_le.Hci.Socket.{HciSocket}
use bluetooth_le.Hci.Packet.{name_field}
use bluetooth_le.Hci.Packet.Names.{length-name_field, name_field-c_str, take-Lacks}
use bluetooth_le.Hci.Framing.{Sends, framed_wrapped}
use bluetooth_le.Hci.Mgmt.{truncate_name, truncate_short_name, set_name}

take_short : (n : ℕ) (s : Text) → length s ≤ n → take n s ≡ s
take_short zero [] h = refl
take_short (suc n) [] h = refl
take_short zero (c ∷ s) h = absurd (omega (arith, h))
take_short (suc n) (c ∷ s) h = ap (◌∷◌ c) (take_short n s (omega (arith, h)))

truncate_name-take : (name : Text) → truncate_name name ≡ take 248 name
unfolding truncate_name
truncate_name-take name = elim (Bool-cases (leb (length name) 248)) [
  | inl e ↦ rw e (sym (take_short 248 name (leb→le (length name) 248 e)))
  | inr e ↦ rw e refl
]

truncate_short_name-take : (name : Text) → truncate_short_name name ≡ take 10 name
unfolding truncate_short_name
truncate_short_name-take name = elim (Bool-cases (leb (length name) 10)) [
  | inl e ↦ rw e (sym (take_short 10 name (leb→le (length name) 10 e)))
  | inr e ↦ rw e refl
]

take_twice : (n : ℕ) (s : Text) → take n (take n s) ≡ take n s
take_twice n s = take_short n (take n s) (omega (arith, length-take n s))

-- A field one byte longer than the limit of a name without NUL bytes holds the cut name whole.
cut_fits :
    (n : ℕ) (name : Text)
    → Lacks 0 name
    → (length (name_field (suc n) (take n name)) ≡ suc n)
      × (c_str (name_field (suc n) (take n name)) ≡ take n name)
cut_fits n name h = (
  length-name_field (suc n) (take n name) (omega arith),
  name_field-c_str (suc n) (take n name) (omega arith)
      ∙ ap (λ m. take m (c_str (take n name))) (less_one n)
      ∙ ap (take n) (c_str_of_Lacks (take n name) (take-Lacks n name h))
      ∙ take_twice n name,
)
  where
    less_one : (n : ℕ) → suc n - 1 ≡ n
    less_one n = omega arith

-- A name and a short name without NUL bytes: each fills its field of 249 or 11 bytes exactly, and
-- reading the field back as a C string gives what the truncation has kept, which is the first 248 or
-- 10 bytes.
pub truncate-name_field :
    (name short_name : Text)
    → Lacks 0 name
    → Lacks 0 short_name
    → ((length (name_field 249 (truncate_name name)) ≡ 249)
        × (c_str (name_field 249 (truncate_name name)) ≡ take 248 name))
      × ((length (name_field 11 (truncate_short_name short_name)) ≡ 11)
          × (c_str (name_field 11 (truncate_short_name short_name)) ≡ take 10 short_name))
truncate-name_field name short_name h k =
    rw (truncate_name-take name, truncate_short_name-take short_name)
      (cut_fits 248 name h, cut_fits 10 short_name k)

take-append_short : (n : ℕ) (xs ys : Text) → n ≤ length xs → take n (xs ++ ys) ≡ take n xs
take-append_short zero xs ys h = refl
take-append_short (suc n) [] ys h = absurd (omega (arith, h))
take-append_short (suc n) (x ∷ xs) ys h = ap (◌∷◌ x) (take-append_short n xs ys (omega (arith, h)))

-- Whatever the two names are, `Mgmt::setName` sends a packet whose parameters are four bytes, the
-- first four of the field with the name.
pub set_name_cut :
    (sys : System) (name short_name : Text) (s : HciSocket)
    → Sends sys
        (0x0c13, take 4 (name_field 249 (truncate_name name)))
        s
        (set_name sys name short_name s)
unfolding set_name
set_name_cut sys name short_name s =
    (let long : Text = name_field 249 (truncate_name name) in
      let short : Text = name_field 11 (truncate_short_name short_name) in
      let l = length-name_field 249 (truncate_name name) (omega arith) in
      let k = length-name_field 11 (truncate_short_name short_name) (omega arith) in
      let four : length (long ++ short) % 256 ≡ 4 = omega (arith, l, k, length-append long short) in
      subst (λ b. Sends sys (0x0c13, b) s (set_name sys name short_name s))
        (ap (λ n. take n (long ++ short)) four ∙ take-append_short 4 long short (omega (arith, l)))
        (framed_wrapped sys 0x0c13 (long ++ short) s (omega arith)))
