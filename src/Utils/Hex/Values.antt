-- ===== src/Utils/Hex/Values.antt =====
-- The hex output of src/Utils.cpp can be read back.
use bluetooth_le.Prelude.{ℕ, ◌^◌, ◌<◌, ◌≡◌, Text, take, drop, arith}
use bluetooth_le.Print.{hex_pad}
use bluetooth_le.Print.Hex.{hex_value, hex_value-hex_pad}
use bluetooth_le.Utils.Hex.{hex8, hex16, hex32, bluetooth_address_string}

-- The value of the hexadecimal digits behind 0x.
abbrev pub read_hex : Text → ℕ
read_hex s = hex_value b'A' 0 (drop 2 s)

-- The value of the two digits at a place of a text.
abbrev pub octet_at : ℕ → Text → ℕ
octet_at i s = hex_value b'A' 0 (take 2 (drop i s))

-- The hexadecimal texts of a number below 2 ^ 8, one below 2 ^ 16 and one below 2 ^ 32, read back, give
-- the number.
pub hex_read :
    (a b c : ℕ)
    → a < 2 ^ 8
    → b < 2 ^ 16
    → c < 2 ^ 32
    → (read_hex (hex8 a) ≡ a) × (read_hex (hex16 b) ≡ b) × (read_hex (hex32 c) ≡ c)
unfolding hex8 hex16 hex32
hex_read a b c h k l = (
  hex_value-hex_pad b'A' 2 a (omega arith) h,
  hex_value-hex_pad b'A' 4 b (omega arith) k,
  hex_value-hex_pad b'A' 8 c (omega arith) l,
)

-- The text of a Bluetooth address with six octets below 2 ^ 8 has each of them at its place.
pub bluetooth_address_string_read :
    (a b c d e f : ℕ)
    → a < 2 ^ 8
    → b < 2 ^ 8
    → c < 2 ^ 8
    → d < 2 ^ 8
    → e < 2 ^ 8
    → f < 2 ^ 8
    → (octet_at 0 (bluetooth_address_string a b c d e f) ≡ a)
      × (octet_at 3 (bluetooth_address_string a b c d e f) ≡ b)
      × (octet_at 6 (bluetooth_address_string a b c d e f) ≡ c)
      × (octet_at 9 (bluetooth_address_string a b c d e f) ≡ d)
      × (octet_at 12 (bluetooth_address_string a b c d e f) ≡ e)
      × (octet_at 15 (bluetooth_address_string a b c d e f) ≡ f)
unfolding bluetooth_address_string hex_pad
bluetooth_address_string_read a b c d e f ha hb hc hd he hf =
    (octet a ha, octet b hb, octet c hc, octet d hd, octet e he, octet f hf)
  where
    octet : (n : ℕ) → n < 2 ^ 8 → hex_value b'A' 0 (hex_pad b'A' 2 n) ≡ n
    octet n h = hex_value-hex_pad b'A' 2 n (omega arith) h
