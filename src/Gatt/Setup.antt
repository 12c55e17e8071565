-- ===== src/Gatt/Setup.antt =====
-- `setupDBusInterfaces` of the three kinds of objects: their interfaces, methods and registration.
use bluetooth_le.Prelude.{Bool, true, false, List, [], ◌∷◌, none, some, Text, codes, if◌then◌else◌}
use bluetooth_le.DBusTypes.{DBusProperty}
use bluetooth_le.Gio.{Environment}
use bluetooth_le.Connection.{DBusConnection}
use bluetooth_le.DBusObject.{add_interface, add_method, register_object}
use bluetooth_le.Gatt.Records.{
  Getter, Setter, Method, Object, get_uuid, get_service, get_flags, get_descriptors, get_notifying,
  get_characteristic, get_permissions, get_primary, get_characteristics, read_value, write_value,
  start_notify, stop_notify, gatt_service_interface, gatt_characteristic_interface,
  gatt_descriptor_interface,
}

-- A property as all of them are: readable, not writable, with no setter.
abbrev pub read_only : Text → Text → Bool → Getter → DBusProperty Getter Setter
read_only name signature emits getter = record {
  name = name;
  signature = signature;
  readable = true;
  writable = false;
  emits_changed_signal = emits;
  getter = some getter;
  setter = none;
}

abbrev pub descriptor_properties : List (DBusProperty Getter Setter)
descriptor_properties =
    read_only (codes "UUID") (codes "s") false get_uuid
    ∷ read_only (codes "Characteristic") (codes "o") false get_characteristic
    ∷ read_only (codes "Flags") (codes "as") false get_permissions
    ∷ []

abbrev pub characteristic_properties : List (DBusProperty Getter Setter)
characteristic_properties =
    read_only (codes "UUID") (codes "s") false get_uuid
    ∷ read_only (codes "Service") (codes "o") false get_service
    ∷ read_only (codes "Flags") (codes "as") false get_flags
    ∷ read_only (codes "Descriptors") (codes "ao") true get_descriptors
    ∷ read_only (codes "Notifying") (codes "b") true get_notifying
    ∷ []

abbrev pub service_properties : List (DBusProperty Getter Setter)
service_properties =
    read_only (codes "UUID") (codes "s") false get_uuid
    ∷ read_only (codes "Primary") (codes "b") false get_primary
    ∷ read_only (codes "Characteristics") (codes "ao") true get_characteristics
    ∷ []

-- The methods in the order in which they are added; the first failure ends the loop.
unfoldable pub add_methods : Text → List (Text × Method) → Object → Bool × Object
unfolding add_method
add_methods interface [] o = (true, o)
add_methods interface ((name, m) ∷ ms) o =
    let (ok, o') = add_method interface name m o in
    let rest = add_methods interface ms o' in if ok then rest else (false, o')

-- The three steps that each `setupDBusInterfaces` takes, each only if the one before succeeded.
unfoldable pub setup :
    Environment
    → Text
    → List (DBusProperty Getter Setter)
    → List (Text × Method)
    → Object
    → DBusConnection
    → Bool × Object × DBusConnection
unfolding add_interface add_methods register_object
setup env interface properties methods o c =
    let (added, o1) = add_interface interface properties o in
    let (methods_added, o2) = add_methods interface methods o1 in
    if added
    then (if methods_added then register_object env o2 c else (false, o2, c))
    else (false, o1, c)

unfoldable pub setup_descriptor :
    Environment → Object → DBusConnection → Bool × Object × DBusConnection
unfolding setup
setup_descriptor env =
    setup env gatt_descriptor_interface descriptor_properties
      ((codes "ReadValue", read_value) ∷ (codes "WriteValue", write_value) ∷ [])

unfoldable pub setup_characteristic :
    Environment → Object → DBusConnection → Bool × Object × DBusConnection
unfolding setup
setup_characteristic env = setup env gatt_characteristic_interface characteristic_properties (
    (codes "ReadValue", read_value)
    ∷ (codes "WriteValue", write_value)
    ∷ (codes "StartNotify", start_notify)
    ∷ (codes "StopNotify", stop_notify)
    ∷ [])

unfoldable pub setup_service :
    Environment → Object → DBusConnection → Bool × Object × DBusConnection
unfolding setup
setup_service env = setup env gatt_service_interface service_properties []
