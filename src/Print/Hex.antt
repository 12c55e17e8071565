-- ===== src/Print/Hex.antt =====
-- Padded hexadecimal printing can be read back, and has the width asked for.
use bluetooth_le.Prelude.{
  ℕ, zero, suc, ◌+◌, ◌-◌, ◌*◌, ◌/◌, ◌^◌, ◌<◌, ◌≡◌, refl, [], ◌∷◌, ◌++◌, Text, arith, ltb,
  if◌then◌else◌, length, length-append,
}
use native.Mathlib.Nat.{pow-suc}
use bluetooth_le.Print.{hex_pad}

abbrev digit_value : ℕ → ℕ → ℕ
digit_value ten c = if ltb c ten then c - b'0' else c - ten + 10

pub hex_value : ℕ → ℕ → Text → ℕ
hex_value ten acc [] = acc
hex_value ten acc (c ∷ s) = hex_value ten (acc * 16 + digit_value ten c) s

hex_value-append :
    (ten acc : ℕ) (s : Text) (c : ℕ)
    → hex_value ten acc (s ++ c ∷ []) ≡ hex_value ten acc s * 16 + digit_value ten c
unfolding hex_value
hex_value-append ten acc [] c = refl
hex_value-append ten acc (d ∷ s) c = hex_value-append ten (acc * 16 + digit_value ten d) s c

pub hex_value-hex_pad :
    (ten w n : ℕ) → b'9' < ten → n < 16 ^ w → hex_value ten 0 (hex_pad ten w n) ≡ n
unfolding hex_value hex_pad
hex_value-hex_pad ten zero n h b = omega arith
hex_value-hex_pad ten (suc w) n h b =
    rw (hex_value-append, hex_value-hex_pad ten w (n / 16) h (omega (arith, pow-suc 16 w)))
      (ground arith)

pub length-hex_pad : (ten w n : ℕ) → length (hex_pad ten w n) ≡ w
unfolding hex_pad
length-hex_pad ten zero n = refl
length-hex_pad ten (suc w) n = rw (length-append {0}, length-hex_pad ten w (n / 16)) (omega arith)
