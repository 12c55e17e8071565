-- ===== src/Print.antt =====
-- What the code uses of the C++ library to print numbers: `std::to_string`, and `printf` with the
-- formats %02X, %04X, %08X and %04x at values that fit the width. Also `c_str`, which cuts a
-- `std::string` at its first NUL byte.
pub mod Decimal
pub mod Hex
pub mod CString
use bluetooth_le.Prelude.{
  ℕ, zero, suc, ◌+◌, ◌-◌, ◌/◌, ◌%◌, List, [], ◌∷◌, ◌++◌, Text, ltb, ◌==◌, if◌then◌else◌,
}

digits : ℕ → ℕ → Text → Text
digits zero n out = out
digits (suc f) n out =
    let longer : Text = (b'0' + n % 10) ∷ out in
    let rest = digits f (n / 10) longer in if ltb n 10 then longer else rest

-- A number has fewer digits than its value plus one, which is the fuel.
unfoldable pub to_string : ℕ → Text
unfolding digits
to_string n = digits (suc n) n []

-- A digit below sixteen; `ten` is 'A' or 'a'.
abbrev hex_digit : ℕ → ℕ → ℕ
hex_digit ten d = if ltb d 10 then b'0' + d else ten + (d - 10)

unfoldable pub hex_pad : ℕ → ℕ → ℕ → Text
hex_pad ten zero n = []
hex_pad ten (suc w) n = hex_pad ten w (n / 16) ++ hex_digit ten (n % 16) ∷ []

-- The bytes before the first NUL.
unfoldable pub c_str : Text → Text
c_str [] = []
c_str (c ∷ s) = if c == 0 then [] else c ∷ c_str s
