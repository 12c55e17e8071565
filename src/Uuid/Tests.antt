-- ===== src/Uuid/Tests.antt =====
-- UUIDs at concrete inputs.
use bluetooth_le.Prelude.{◌≡◌, refl, codes, some, none}
use mathlib.Core.Option
use bluetooth_le.Uuid.{
  GattUuid, all_xdigits, make, from_short_uuid, to_blue_z_format, to_blue_z_short_format,
}
use bluetooth_le.Uuid.Spellings.{IsGroups}

battery :
    Option.map to_blue_z_format (from_short_uuid 0x180f)
    ≡ some (codes "0000180f00001000800000805f9b34fb")
unfolding from_short_uuid to_blue_z_format
battery = refl

configuration : Option.map to_blue_z_short_format (from_short_uuid 0x2902) ≡ some (codes "00002902")
unfolding from_short_uuid to_blue_z_short_format
configuration = refl

too_short : make (codes "2902") ≡ none
unfolding make
too_short = refl

abbrev battery_level : GattUuid
battery_level = record { uuid = codes "00002a19-0000-1000-8000-00805f9b34fb" }

accepted_level : from_short_uuid 0x2a19 ≡ some battery_level
unfolding from_short_uuid
accepted_level = refl

groups :
    IsGroups (codes "0000180f") (codes "0000") (codes "1000") (codes "8000") (codes "00805f9b34fb")
unfolding all_xdigits
groups = record {
  length_a = refl;
  length_b = refl;
  length_c = refl;
  length_d = refl;
  length_e = refl;
  xdigits = refl;
}
