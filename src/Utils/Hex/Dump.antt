-- ===== src/Utils/Hex/Dump.antt =====
-- The hex dump of src/Utils.cpp against a table with one row for each 16 bytes.
use bluetooth_le.Prelude.{
  ℕ, zero, suc, ◌-◌, ◌*◌, ◌<◌, ◌≤◌, ◌≡◌, refl, ap, ◌∙◌, List, [], ◌∷◌, ◌++◌, none, some, Text,
  codes, length, replicate, map, arith, All, length-append,
}
use bluetooth_le.Print.{hex_pad}
use bluetooth_le.Print.Hex.{length-hex_pad}
use bluetooth_le.Utils.Hex.{hex_cell, ascii_cell, lines, padded, row, rows, hex_dump}
use bluetooth_le.Utils.Hex.Lines.{span, cells, chunks, chunks_small, length-cells, lines-chunks}

-- A part that is filled with blanks up to its width.
abbrev pub fill : ℕ → Text → Text
fill width part = part ++ replicate (width - length part) b' '

padded-fill :
    (width : ℕ) (part : Text)
    → length part ≤ width
    → width < 100
    → padded width part ≡ fill width part
unfolding padded
padded-fill width part h w = ap (λ n. part ++ replicate n b' ') (omega (arith, h, w))

-- The row of one group: its bytes in hexadecimal, and its printable characters.
abbrev pub group_row : List ℕ → Text
group_row group = row (fill 48 (cells hex_cell group)) (fill 16 (cells ascii_cell group))

-- The rows with line feeds between them.
pub table : List (List ℕ) → Text
table [] = []
table (g ∷ []) = group_row g
table (g ∷ g' ∷ groups) = group_row g ++ codes "\n" ++ table (g' ∷ groups)

length-hex_cell : (b : ℕ) → length (hex_cell b) ≡ 3
unfolding hex_cell
length-hex_cell b =
    omega (arith, length-append (hex_pad b'A' 2 b) (codes " "), length-hex_pad b'A' 2 b)

length-ascii_cell : (b : ℕ) → length (ascii_cell b) ≡ 1
unfolding ascii_cell
length-ascii_cell b = ground arith

span_three : (n : ℕ) → span 3 n ≡ 3 * n
span_three zero = omega arith
span_three (suc n) = omega (arith, span_three n)

span_one : (n : ℕ) → span 1 n ≡ n
span_one zero = refl
span_one (suc n) = omega (arith, span_one n)

row_filled :
    (g : List ℕ)
    → length g ≤ 16
    → row (padded 48 (cells hex_cell g)) (padded 16 (cells ascii_cell g)) ≡ group_row g
row_filled g h =
    (let l = length-cells 48 3 hex_cell length-hex_cell (omega arith) g in
      let r = length-cells 16 1 ascii_cell length-ascii_cell (omega arith) g in
      ap (λ x. row x (padded 16 (cells ascii_cell g)))
        (padded-fill 48 (cells hex_cell g) (omega (arith, l, span_three (length g), h))
          (omega arith))
      ∙ ap (λ x. row (fill 48 (cells hex_cell g)) x)
          (padded-fill 16 (cells ascii_cell g) (omega (arith, r, span_one (length g), h))
            (omega arith)))

rows-table :
    (groups : List (List ℕ))
    → All (λ g. length g ≤ 16) groups
    → rows (map (cells hex_cell) groups) (map (cells ascii_cell) groups) ≡ some (table groups)
unfolding rows table
rows-table [] h = refl
rows-table (g ∷ []) (h, _) = ap some (row_filled g h)
rows-table (g ∷ g' ∷ groups) (h, hs) =
    ap
      (λ o. elim o [
        | none ↦ none
        | some rest ↦ some (
            row (padded 48 (cells hex_cell g)) (padded 16 (cells ascii_cell g))
            ++ codes "\n"
            ++ rest)
      ])
      (rows-table (g' ∷ groups) hs)
    ∙ ap (λ r. some (r ++ codes "\n" ++ table (g' ∷ groups))) (row_filled g h)

-- The hex dump of any bytes reads no line that is not there and inserts no more blanks than are missing:
-- it is the table with one row for each group of sixteen bytes, in which the hexadecimal part is filled
-- up to 48 columns and the printable part up to 16.
pub hex_dump-table : (bytes : List ℕ) → hex_dump bytes ≡ some (table (chunks (length bytes) bytes))
unfolding hex_dump
hex_dump-table bytes =
    (let n : ℕ = length bytes in
      ap (λ l. rows l (lines 16 ascii_cell bytes []))
        (lines-chunks 3 hex_cell length-hex_cell (omega arith) n bytes (omega arith))
      ∙ ap (rows (map (cells hex_cell) (chunks n bytes)))
          (lines-chunks 1 ascii_cell length-ascii_cell (omega arith) n bytes (omega arith))
      ∙ rows-table (chunks n bytes) (chunks_small n bytes))
