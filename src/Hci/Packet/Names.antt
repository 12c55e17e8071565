-- ===== src/Hci/Packet/Names.antt =====
-- The fields that hold a name.
use bluetooth_le.Prelude.{
  ℕ, zero, suc, ◌-◌, ◌<◌, ◌≡◌, refl, [], ◌∷◌, ◌++◌, Text, length, take, replicate, Lacks, arith,
  length-append, length-take, length-replicate,
}
use bluetooth_le.Print.{c_str}
use bluetooth_le.Print.CString.{c_str-Lacks}
use bluetooth_le.Hci.Packet.{name_field}

pub length-name_field : (size : ℕ) (name : Text) → 0 < size → length (name_field size name) ≡ size
unfolding name_field
length-name_field size name h =
    (let copied : Text = take (size - 1) (c_str name) in
      let a = length-append copied (replicate (size - length copied) 0) in
      let b = length-replicate {A = ℕ} (size - length copied) 0 in
      let c = length-take (size - 1) (c_str name) in omega (arith, a, b, c, h))

c_str-append_zeros : (s : Text) (n : ℕ) → Lacks 0 s → c_str (s ++ replicate (suc n) 0) ≡ s
unfolding c_str
c_str-append_zeros [] n h = refl
c_str-append_zeros (c ∷ s) n (p, h) = ground (arith, c_str-append_zeros s n h)

pub take-Lacks : (n : ℕ) (s : Text) → Lacks 0 s → Lacks 0 (take n s)
take-Lacks zero s h = tt
take-Lacks (suc n) [] h = tt
take-Lacks (suc n) (c ∷ s) (p, h) = (p, take-Lacks n s h)

field-c_str :
    (n : ℕ) (copied : Text) → Lacks 0 copied → 0 < n → c_str (copied ++ replicate n 0) ≡ copied
field-c_str zero copied h p = absurd (omega (arith, p))
field-c_str (suc n) copied h p = c_str-append_zeros copied n h

-- What a reader of the field as a C string gets.
pub name_field-c_str :
    (size : ℕ) (name : Text)
    → 0 < size
    → c_str (name_field size name) ≡ take (size - 1) (c_str name)
unfolding name_field
name_field-c_str size name h =
    (let copied : Text = take (size - 1) (c_str name) in
      field-c_str (size - length copied) copied
        (take-Lacks (size - 1) (c_str name) (c_str-Lacks name))
        (omega (arith, length-take (size - 1) (c_str name), h)))
