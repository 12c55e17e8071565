-- ===== src/Utils/Tests.antt =====
-- Trimming and hex output at concrete inputs.
use bluetooth_le.Prelude.{◌≡◌, refl, [], ◌∷◌, some, codes}
use bluetooth_le.Utils.{trim}
use bluetooth_le.Utils.Hex.{hex_dump}
use bluetooth_le.Utils.Hex.Lines.{chunks}
use bluetooth_le.Utils.Hex.Dump.{table, hex_dump-table}

trimmed : trim (codes "  a b\t\n") ≡ codes "a b"
unfolding trim
trimmed = refl

dumped :
    hex_dump (0x41 ∷ 0x07 ∷ [])
    ≡ some (codes "    > 41 07                                              [A.              ]")
unfolding hex_dump
dumped = refl

hex_dump-table_example : hex_dump (0x41 ∷ 0x07 ∷ []) ≡ some (table (chunks 2 (0x41 ∷ 0x07 ∷ [])))
hex_dump-table_example = hex_dump-table (0x41 ∷ 0x07 ∷ [])
