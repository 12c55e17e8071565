-- ===== src/Utils.antt =====
-- src/Utils.cpp: the functions that trim texts. `std::isspace` is that of the C locale, asked of bytes
-- below 128. The functions in place and the copying ones are the same here.
pub mod Trim
pub mod Hex
pub mod Variants
pub mod Tests
use bluetooth_le.Prelude.{ℕ, Bool, ◌&&◌, ◌||◌, List, [], ◌∷◌, Text, leb, ◌==◌, if◌then◌else◌}
use mathlib.Core.List.{reverse}

pub is_space : ℕ → Bool
is_space c = (c == 32) || (leb 9 c && leb c 13)

-- `find_if` and the erasure of what is before it.
unfoldable pub trim_begin : Text → Text
unfolding is_space
trim_begin [] = []
trim_begin (c ∷ s) = if is_space c then trim_begin s else c ∷ s

-- The same from the other end.
unfoldable pub trim_end : Text → Text
unfolding trim_begin
trim_end s = reverse (trim_begin (reverse s))

unfoldable pub trim : Text → Text
unfolding trim_begin trim_end
trim s = trim_end (trim_begin s)
