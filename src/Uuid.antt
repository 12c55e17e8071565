-- ===== src/Uuid.antt =====
-- include/GattTypes.h and src/GattTypes.cpp: UUIDs in text form and in the forms BlueZ uses, and the
-- bits of permissions and properties. `isxdigit` and `tolower` are those of the C locale.
pub mod Format
pub mod Spellings
pub mod Tests
use bluetooth_le.Prelude.{
  ℕ, ◌+◌, Bool, true, false, ◌&&◌, ◌||◌, List, [], ◌∷◌, ◌++◌, map, Option, none, some, Text, codes,
  ltb, leb, ◌==◌, if◌then◌else◌, length, get_elem?, take,
}
use bluetooth_le.Print.{hex_pad}

pub record GattUuid : Type 0 where
  pub uuid : Text

abbrev pub hyphen : ℕ
hyphen = b'-'

pub is_xdigit : ℕ → Bool
is_xdigit c = (leb b'0' c && leb c b'9') || (leb b'A' c && leb c b'F') || (leb b'a' c && leb c b'f')

pub all_xdigits : Text → Bool
unfolding is_xdigit
all_xdigits [] = true
all_xdigits (c ∷ s) = if is_xdigit c then all_xdigits s else false

-- `s[i] == '-'`, where the length has been tested before.
pub hyphen_at : Text → ℕ → Bool
hyphen_at s i = elim (get_elem? s i) [ none ↦ false | some c ↦ c == hyphen ]

pub validate : Text → Bool
unfolding all_xdigits hyphen_at
validate s =
    if (length s == 36) && hyphen_at s 8 && hyphen_at s 13 && hyphen_at s 18 && hyphen_at s 23
    then true
    else if length s == 32
    then all_xdigits s
    else false

-- The constructor; `none` is the exception `invalid_argument`.
unfoldable pub make : Text → Option GattUuid
unfolding validate
make s = if validate s then some (record { uuid = s }) else none

-- "0000%04x-0000-1000-8000-00805f9b34fb", which fills 36 of the 37 bytes of the buffer.
unfoldable pub from_short_uuid : ℕ → Option GattUuid
unfolding make hex_pad
from_short_uuid n = make (codes "0000" ++ hex_pad b'a' 4 n ++ codes "-0000-1000-8000-00805f9b34fb")

pub remove : ℕ → Text → Text
remove b [] = []
remove b (c ∷ s) = if c == b then remove b s else c ∷ remove b s

pub to_lower : ℕ → ℕ
to_lower c = if leb b'A' c && leb c b'Z' then c + 32 else c

unfoldable pub to_blue_z_format : GattUuid → Text
unfolding remove to_lower
to_blue_z_format g = map to_lower (remove hyphen g.uuid)

unfoldable pub to_blue_z_short_format : GattUuid → Text
unfolding remove to_lower
to_blue_z_short_format g =
    let result = map to_lower (remove hyphen g.uuid) in
    if leb 8 (length result) then take 8 result else result
