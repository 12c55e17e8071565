-- ===== src/Gatt/Create.antt =====
-- The trees of services, characteristics and descriptors: `createCharacteristic`,
-- `createDescriptor` and the look-ups of src/GattService.cpp and src/GattCharacteristic.cpp. A
-- pointer that a function returns is the entry of the map at that time.
pub mod Paths
pub mod RoundTrip
use bluetooth_le.Prelude.{
  ℕ, ◌+◌, Bool, true, false, List, [], ◌∷◌, Option, none, some, Text, codes, if◌then◌else◌, length,
  Dict, find, insert, erase,
}
use bluetooth_le.Print.{to_string}
use bluetooth_le.ObjectPath.{DBusObjectPath, append_string}
use bluetooth_le.Uuid.{GattUuid, to_blue_z_format}
use bluetooth_le.Gio.{Value, Environment, string, boolean, string_array, build}
use bluetooth_le.Connection.{DBusConnection}
use bluetooth_le.DBusObject.{new}
use bluetooth_le.Gatt.Records.{Object, GattDescriptor, GattCharacteristic, GattService}
use bluetooth_le.Gatt.Setup.{setup_descriptor, setup_characteristic}

-- `getPath() + label + std::to_string(children.size() + 1)`: two concatenations of paths.
unfoldable pub child_path : DBusObjectPath → Text → ℕ → DBusObjectPath
unfolding append_string to_string
child_path parent label size = append_string (append_string parent label) (to_string (size + 1))

-- The constructors.
unfoldable pub new_descriptor : DBusObjectPath → GattUuid → DBusObjectPath → ℕ → GattDescriptor
unfolding new
new_descriptor path uuid characteristic permissions = record {
  object = new path;
  uuid = uuid;
  characteristic = characteristic;
  permissions = permissions;
  value = [];
  read_callback = none;
  write_callback = none;
}

unfoldable pub new_characteristic :
    DBusObjectPath → GattUuid → DBusObjectPath → ℕ → ℕ → GattCharacteristic
unfolding new
new_characteristic path uuid service properties permissions = record {
  object = new path;
  uuid = uuid;
  service = service;
  properties = properties;
  permissions = permissions;
  value = [];
  notifying = false;
  descriptors = [];
  read_callback = none;
  write_callback = none;
  notify_callback = none;
}

unfoldable pub new_service : DBusObjectPath → GattUuid → Bool → GattService
unfolding new
new_service path uuid primary = record {
  object = new path;
  uuid = uuid;
  primary = primary;
  characteristics = [];
}

-- `find`, for an entry that is no null pointer.
unfoldable pub lookup {ℓ} : {A : Type ℓ} → Text → Dict (Option A) → Option A
unfolding find
lookup key m = elim (find key m) [ none ↦ none | some entry ↦ entry ]

-- A map without the null pointer that it may have at the key.
unfoldable pub cleaned {ℓ} : {A : Type ℓ} → Text → Dict (Option A) → Dict (Option A)
unfolding find erase
cleaned key m = elim (find key m) [ none ↦ m | some entry ↦ erase key m ]

-- What is done with a new descriptor when its set-up has answered.
unfoldable pub keep_descriptor :
    GattDescriptor
    → GattCharacteristic
    → Bool × Object × DBusConnection
    → Option GattDescriptor × GattCharacteristic × DBusConnection
unfolding insert
keep_descriptor d ch (false, o, c) = (none, ch, c)
keep_descriptor d ch (true, o, c) =
    let kept = record d { object = o } in
    (some kept, record ch { descriptors = insert d.uuid.uuid (some kept) ch.descriptors }, c)

-- What is done with a new characteristic when its set-up has answered.
unfoldable pub keep_characteristic :
    GattCharacteristic
    → GattService
    → Bool × Object × DBusConnection
    → Option GattCharacteristic × GattService × DBusConnection
unfolding insert
keep_characteristic ch s (false, o, c) = (none, s, c)
keep_characteristic ch s (true, o, c) =
    let kept = record ch { object = o } in
    (some kept, record s { characteristics = insert ch.uuid.uuid (some kept) s.characteristics }, c)

module _ (env : Environment) where
  -- The part behind the look-up, where a new descriptor is set up.
  unfoldable pub add_descriptor :
      GattUuid
      → ℕ
      → GattCharacteristic
      → DBusConnection
      → Option GattDescriptor × GattCharacteristic × DBusConnection
  unfolding keep_descriptor new_descriptor
  add_descriptor uuid permissions ch c =
      let path = child_path ch.object.path (codes "/desc") (length ch.descriptors) in
      let d = new_descriptor path uuid ch.object.path permissions in
      keep_descriptor d ch (setup_descriptor env d.object c)

  unfoldable pub create_descriptor_at :
      Text
      → GattUuid
      → ℕ
      → GattCharacteristic
      → DBusConnection
      → Option GattDescriptor × GattCharacteristic × DBusConnection
  unfolding lookup cleaned
  create_descriptor_at [] uuid permissions ch c = (none, ch, c)
  create_descriptor_at (x ∷ key) uuid permissions ch c = elim (lookup (x ∷ key) ch.descriptors) [
    | some d ↦ (some d, ch, c)
    | none ↦
        add_descriptor uuid permissions
          (record ch { descriptors = cleaned (x ∷ key) ch.descriptors }) c
  ]

  unfoldable pub create_descriptor :
      GattUuid
      → ℕ
      → GattCharacteristic
      → DBusConnection
      → Option GattDescriptor × GattCharacteristic × DBusConnection
  unfolding create_descriptor_at
  create_descriptor uuid permissions ch c = create_descriptor_at uuid.uuid uuid permissions ch c

  unfoldable pub add_characteristic :
      GattUuid
      → ℕ
      → ℕ
      → GattService
      → DBusConnection
      → Option GattCharacteristic × GattService × DBusConnection
  unfolding keep_characteristic new_characteristic
  add_characteristic uuid properties permissions s c =
      let path = child_path s.object.path (codes "/char") (length s.characteristics) in
      let ch = new_characteristic path uuid s.object.path properties permissions in
      keep_characteristic ch s (setup_characteristic env ch.object c)

  unfoldable pub create_characteristic_at :
      Text
      → GattUuid
      → ℕ
      → ℕ
      → GattService
      → DBusConnection
      → Option GattCharacteristic × GattService × DBusConnection
  unfolding lookup cleaned
  create_characteristic_at [] uuid properties permissions s c = (none, s, c)
  create_characteristic_at (x ∷ key) uuid properties permissions s c =
      elim (lookup (x ∷ key) s.characteristics) [
        | some ch ↦ (some ch, s, c)
        | none ↦
            add_characteristic uuid properties permissions
              (record s { characteristics = cleaned (x ∷ key) s.characteristics }) c
      ]

  unfoldable pub create_characteristic :
      GattUuid
      → ℕ
      → ℕ
      → GattService
      → DBusConnection
      → Option GattCharacteristic × GattService × DBusConnection
  unfolding create_characteristic_at
  create_characteristic uuid properties permissions s c =
      create_characteristic_at uuid.uuid uuid properties permissions s c

unfoldable pub get_descriptor : GattUuid → GattCharacteristic → Option GattDescriptor
unfolding lookup
get_descriptor uuid ch = lookup uuid.uuid ch.descriptors

unfoldable pub get_characteristic : GattUuid → GattService → Option GattCharacteristic
unfolding lookup
get_characteristic uuid s = lookup uuid.uuid s.characteristics

unfoldable pub characteristic_paths : Dict (Option GattCharacteristic) → List Text
characteristic_paths [] = []
characteristic_paths ((uuid, none) ∷ m) = characteristic_paths m
characteristic_paths ((uuid, some ch) ∷ m) = ch.object.path.path ∷ characteristic_paths m

module _ (env : Environment) where
  unfoldable pub get_uuid_property : GattService → Option Value
  unfolding to_blue_z_format
  get_uuid_property s = build env (string (to_blue_z_format s.uuid))

  unfoldable pub get_primary_property : GattService → Option Value
  get_primary_property s = build env (boolean s.primary)

  unfoldable pub get_characteristics_property : GattService → Option Value
  unfolding characteristic_paths
  get_characteristics_property s = build env (string_array (characteristic_paths s.characteristics))
