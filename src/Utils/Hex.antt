-- ===== src/Utils/Hex.antt =====
-- src/Utils.cpp: the hex output. A byte is a number below 256. `std::string::insert` takes a `size_t`,
-- so that a count below 0 would be a huge one; an index past the end of a vector is undefined.
pub mod Lines
pub mod Dump
pub mod Values
use bluetooth_le.Prelude.{
  ℕ, ◌+◌, ◌-◌, ◌*◌, ◌%◌, ◌^◌, Bool, true, false, ◌||◌, List, [], ◌∷◌, ◌++◌, Option, none, some,
  Text, codes, length, get_elem?, replicate, ltb, leb, ◌==◌, if◌then◌else◌,
}
use bluetooth_le.Print.{hex_pad}

-- `hex` of 8, 16 and 32 bits.
unfoldable pub hex8 : ℕ → Text
unfolding hex_pad
hex8 value = codes "0x" ++ hex_pad b'A' 2 value

unfoldable pub hex16 : ℕ → Text
unfolding hex_pad
hex16 value = codes "0x" ++ hex_pad b'A' 4 value

unfoldable pub hex32 : ℕ → Text
unfolding hex_pad
hex32 value = codes "0x" ++ hex_pad b'A' 8 value

-- Six octets.
unfoldable pub bluetooth_address_string : ℕ → ℕ → ℕ → ℕ → ℕ → ℕ → Text
unfolding hex_pad
bluetooth_address_string a b c d e f =
    hex_pad b'A' 2 a
    ++ b':' ∷ hex_pad b'A' 2 b
    ++ b':' ∷ hex_pad b'A' 2 c
    ++ b':' ∷ hex_pad b'A' 2 d
    ++ b':' ∷ hex_pad b'A' 2 e
    ++ b':' ∷ hex_pad b'A' 2 f

-- What one byte adds to a line of the left and of the right column.
unfoldable pub hex_cell : ℕ → Text
unfolding hex_pad
hex_cell b = hex_pad b'A' 2 b ++ codes " "

unfoldable pub ascii_cell : ℕ → Text
ascii_cell b = if ltb b 0x20 || ltb 0x7e b then codes "." else b ∷ []

-- `if (!line.empty()) push_back(line)`.
abbrev pub leftover : Text → List Text
leftover [] = []
leftover (c ∷ line) = (c ∷ line) ∷ []

-- Both loops over the data: the texts of the bytes are added to `line`, which is a line of its own as
-- soon as it has `width` characters; what is left over is the last line.
unfoldable pub lines : ℕ → (ℕ → Text) → List ℕ → Text → List Text
lines width cell [] line = leftover line
lines width cell (b ∷ bytes) line = elim (leb width (length (line ++ cell b))) [
  | true ↦ (line ++ cell b) ∷ lines width cell bytes []
  | false ↦ lines width cell bytes (line ++ cell b)
]

-- `insert(length, width - length, ' ')`, where the subtraction is one of 64 bits.
unfoldable pub padded : ℕ → Text → Text
padded width part = part ++ replicate ((width + 2 ^ 64 - length part) % 2 ^ 64) b' '

abbrev pub row : Text → Text → Text
row hex_part ascii_part = codes "    > " ++ hex_part ++ codes "   [" ++ ascii_part ++ codes "]"

-- The loop over the lines of the left column; `none` where the right one has no such line.
unfoldable pub rows : List Text → List Text → Option Text
unfolding padded
rows [] right = some []
rows (h ∷ hs) [] = none
rows (h ∷ []) (a ∷ right) = some (row (padded 48 h) (padded 16 a))
rows (h ∷ h' ∷ hs) (a ∷ right) = elim (rows (h' ∷ hs) right) [
  | none ↦ none
  | some rest ↦ some (row (padded 48 h) (padded 16 a) ++ codes "\n" ++ rest)
]

unfoldable pub hex_dump : List ℕ → Option Text
unfolding hex_cell ascii_cell lines rows
hex_dump bytes = rows (lines 48 hex_cell bytes []) (lines 16 ascii_cell bytes [])
