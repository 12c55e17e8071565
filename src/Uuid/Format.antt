-- ===== src/Uuid/Format.antt =====
-- The forms of a UUID that BlueZ uses.
use mathlib.Core.Option.{some-injective}
use bluetooth_le.Prelude.{
  ℕ, zero, suc, ◌/◌, ◌^◌, ◌<◌, ◌≡◌, refl, sym, ap, ◌∙◌, [], ◌∷◌, ◌++◌, map, map-append, some, Text,
  codes, Lacks, length, take, drop, leb, if◌then◌else◌, arith, All-append,
}
use bluetooth_le.Print.{hex_pad}
use bluetooth_le.Print.Hex.{hex_value, hex_value-hex_pad}
use bluetooth_le.Uuid.{
  GattUuid, hyphen, make, from_short_uuid, remove, to_lower, to_blue_z_format,
  to_blue_z_short_format,
}

pub remove-append : (b : ℕ) (s t : Text) → remove b (s ++ t) ≡ remove b s ++ remove b t
unfolding remove
remove-append b [] t = refl
remove-append b (c ∷ s) t = ground (arith, remove-append b s t)

pub remove-Lacks : (b : ℕ) (s : Text) → Lacks b s → remove b s ≡ s
unfolding remove
remove-Lacks b [] l = refl
remove-Lacks b (c ∷ s) (l, ls) = ground (arith, remove-Lacks b s ls)

pub remove-hyphen : (b : ℕ) (s t : Text) → remove b (s ++ b ∷ t) ≡ remove b s ++ remove b t
unfolding remove
remove-hyphen b [] t = ground arith
remove-hyphen b (c ∷ s) t = ground (arith, remove-hyphen b s t)

hex_pad-Lacks : (w n : ℕ) → Lacks hyphen (hex_pad b'a' w n)
unfolding hex_pad
hex_pad-Lacks zero n = tt
hex_pad-Lacks (suc w) n =
    All-append _ (hex_pad b'a' w (n / 16)) _ (hex_pad-Lacks w (n / 16)) (ground arith)

-- Printing with %x is in lower case already.
to_lower-hex_pad : (w n : ℕ) → map to_lower (hex_pad b'a' w n) ≡ hex_pad b'a' w n
unfolding hex_pad to_lower
to_lower-hex_pad zero n = refl
to_lower-hex_pad (suc w) n =
    rw (map-append, to_lower-hex_pad w (n / 16))
      (ap (λ d. hex_pad b'a' w (n / 16) ++ d ∷ []) (ground arith))

-- The text that `from_short_uuid` prints.
abbrev pub short_uuid : ℕ → GattUuid
short_uuid n = record {
  uuid = codes "0000" ++ hex_pad b'a' 4 n ++ codes "-0000-1000-8000-00805f9b34fb";
}

format_append :
    (t r : Text)
    → Lacks hyphen t
    → map to_lower t ≡ t
    → map to_lower (remove hyphen (t ++ r)) ≡ t ++ map to_lower (remove hyphen r)
format_append t r l e = rw (remove-append hyphen t, remove-Lacks hyphen t l, map-append, e) refl

short_format :
    (n : ℕ)
    → to_blue_z_format (short_uuid n)
      ≡ codes "0000" ++ hex_pad b'a' 4 n ++ codes "00001000800000805f9b34fb"
unfolding to_blue_z_format
short_format n =
    ap (λ u. codes "0000" ++ u)
      (format_append (hex_pad b'a' 4 n) (codes "-0000-1000-8000-00805f9b34fb") (hex_pad-Lacks 4 n)
        (to_lower-hex_pad 4 n))

short_short_format :
    (n : ℕ) → to_blue_z_short_format (short_uuid n) ≡ codes "0000" ++ hex_pad b'a' 4 n
unfolding to_blue_z_short_format hex_pad to_blue_z_format
short_short_format n = ap (λ t. if leb 8 (length t) then take 8 t else t) (short_format n)

-- A 16-bit UUID is always accepted. BlueZ gets the 32 lower-case digits of the base UUID with the
-- four digits put in, and the short form is the first eight of them.
pub from_short_uuid-formats :
    (n : ℕ)
    → (g : GattUuid) × (from_short_uuid n ≡ some g)
      × (to_blue_z_format g ≡ codes "0000" ++ hex_pad b'a' 4 n ++ codes "00001000800000805f9b34fb")
      × (to_blue_z_short_format g ≡ codes "0000" ++ hex_pad b'a' 4 n)
unfolding from_short_uuid make
from_short_uuid-formats n = (short_uuid n, refl, short_format n, short_short_format n)

hex_pad-injective :
    (ten w m n : ℕ)
    → b'9' < ten
    → m < 16 ^ w
    → n < 16 ^ w
    → hex_pad ten w m ≡ hex_pad ten w n
    → m ≡ n
hex_pad-injective ten w m n h bm bn e =
    sym (hex_value-hex_pad ten w m h bm) ∙ ap (hex_value ten 0) e ∙ hex_value-hex_pad ten w n h bn

-- Two 16-bit UUIDs with the same short form are the same.
pub short_format-injective :
    (m n : ℕ) {g h : GattUuid}
    → m < 2 ^ 16
    → n < 2 ^ 16
    → from_short_uuid m ≡ some g
    → from_short_uuid n ≡ some h
    → to_blue_z_short_format g ≡ to_blue_z_short_format h
    → m ≡ n
unfolding from_short_uuid
short_format-injective m n {g} {h} bm bn em en e =
    hex_pad-injective b'a' 4 m n (omega arith) bm bn (ap (drop 4) spelled)
  where
    spelled : codes "0000" ++ hex_pad b'a' 4 m ≡ codes "0000" ++ hex_pad b'a' 4 n
    spelled =
        sym (short_short_format m)
        ∙ ap to_blue_z_short_format (some-injective _ _ em)
        ∙ e
        ∙ sym (ap to_blue_z_short_format (some-injective _ _ en))
        ∙ short_short_format n
