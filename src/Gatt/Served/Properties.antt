-- ===== src/Gatt/Served/Properties.antt =====
-- Reading the properties of a characteristic from the bus.
use bluetooth_le.Prelude.{
  ◌≡◌, ◌≢◌, refl, ap, ◌∙◌, [], ◌∷◌, ◌++◌, Option, none, Text, codes, text_eq, text_eq_ne, text_lt,
  find, insert, arith,
}
use bluetooth_le.ObjectPath.{DBusObjectPath}
use bluetooth_le.Uuid.{to_blue_z_format}
use bluetooth_le.Gio.{Value, Environment, string, object_path, boolean, string_array, build}
use bluetooth_le.Connection.{DBusConnection}
use bluetooth_le.Connection.Dispatch.{
  Access, done, failed, find_property, read_property, handle_get_property, error_unknown_property,
}
use bluetooth_le.DBusObject.{new, add_interface, add_method, register_object, entry, ensure}
use bluetooth_le.Gatt.Records.{Object, GattCharacteristic, gatt_characteristic_interface}
use bluetooth_le.Gatt.Setup.{setup, add_methods, setup_characteristic, characteristic_properties}
use bluetooth_le.Gatt.Flags.{characteristic_flags}
use bluetooth_le.Gatt.Characteristic.{
  descriptor_paths, get_uuid_property, get_service_property, get_properties_property,
  get_descriptors_property, get_notifying_property,
}
use bluetooth_le.Gatt.Served.{handlers_of, get_of_characteristic}
use bluetooth_le.Gatt.Served.Calls.{prepared}

-- The registration keeps the interfaces.
register_object-interfaces :
    (env : Environment) (o : Object) (c : DBusConnection)
    → (register_object env o c).1.interfaces ≡ o.interfaces
unfolding register_object
register_object-interfaces env o c = ground arith

setup_characteristic-interfaces :
    (env : Environment) (path : DBusObjectPath) (c : DBusConnection)
    → (setup_characteristic env (new path) c).1.interfaces
      ≡ (gatt_characteristic_interface, characteristic_properties) ∷ []
unfolding setup_characteristic setup add_methods new add_interface add_method insert find entry
    ensure prepared text_eq text_lt
setup_characteristic-interfaces env path c = register_object-interfaces env (prepared path) c

-- `Get` from the bus at a characteristic whose set-up has been tried.
abbrev pub characteristic_get :
    Environment
    → DBusObjectPath
    → DBusConnection
    → Text
    → GattCharacteristic
    → Access (Option Value)
characteristic_get env path c0 name ch =
    handle_get_property (get_of_characteristic env)
      (handlers_of (setup_characteristic env (new path) c0).1) gatt_characteristic_interface name ch

module _ (env : Environment) (path : DBusObjectPath) (c0 : DBusConnection)
    (ch : GattCharacteristic) where
  looked_up :
      (name : Text)
      → characteristic_get env path c0 name ch
        ≡ read_property
            (get_of_characteristic env)
            gatt_characteristic_interface
            name
            (find_property name characteristic_properties)
            ch
  unfolding handle_get_property find text_eq
  looked_up name =
      ap
        (λ t.
          handle_get_property (get_of_characteristic env)
            (record {
              method_handlers = (setup_characteristic env (new path) c0).1.method_handlers;
              properties = t;
            })
            gatt_characteristic_interface name ch)
        (setup_characteristic-interfaces env path c0)

  no_property :
      (name : Text)
      → codes "UUID" ≢ name
      → codes "Service" ≢ name
      → codes "Flags" ≢ name
      → codes "Descriptors" ≢ name
      → codes "Notifying" ≢ name
      → find_property name characteristic_properties ≡ none
  unfolding find_property
  no_property name a b d e f = rw (text_eq_ne (codes "UUID") name a) (
      rw (text_eq_ne (codes "Service") name b) (
        rw (text_eq_ne (codes "Flags") name d) (
          rw (text_eq_ne (codes "Descriptors") name e)
            (rw (text_eq_ne (codes "Notifying") name f) refl))))

-- What BlueZ reads of a characteristic over the bus, once its set-up has been tried: the UUID in
-- the form for BlueZ, the path of its service, the flags of its bits, its descriptors that are not
-- null, as an array of strings, and whether it notifies, each as it is when the call comes in; any
-- other property of the interface is unknown.
pub characteristic_get-values :
    (env : Environment) (path : DBusObjectPath) (c0 : DBusConnection) (ch : GattCharacteristic)
    → let read : Text → Access (Option Value) = λ name. characteristic_get env path c0 name ch in
      (read (codes "UUID") ≡ done (build env (string (to_blue_z_format ch.uuid))))
      × (read (codes "Service") ≡ done (build env (object_path ch.service.path)))
      × (read (codes "Flags")
          ≡ done (build env (string_array (characteristic_flags ch.properties ch.permissions))))
      × (read (codes "Descriptors")
          ≡ done (build env (string_array (descriptor_paths ch.descriptors))))
      × (read (codes "Notifying") ≡ done (build env (boolean ch.notifying)))
      × ((name : Text)
          → codes "UUID" ≢ name
          → codes "Service" ≢ name
          → codes "Flags" ≢ name
          → codes "Descriptors" ≢ name
          → codes "Notifying" ≢ name
          → read name
            ≡ failed error_unknown_property
                (codes "Unknown property: " ++ gatt_characteristic_interface ++ codes "." ++ name))
unfolding read_property find_property text_eq get_of_characteristic get_uuid_property
    get_service_property get_properties_property get_descriptors_property get_notifying_property
characteristic_get-values env path c0 ch = (
  looked_up env path c0 ch (codes "UUID"),
  looked_up env path c0 ch (codes "Service"),
  looked_up env path c0 ch (codes "Flags"),
  looked_up env path c0 ch (codes "Descriptors"),
  looked_up env path c0 ch (codes "Notifying"),
  λ name a b d e f.
      looked_up env path c0 ch name
      ∙ ap (λ p. read_property (get_of_characteristic env) gatt_characteristic_interface name p ch)
          (no_property env path c0 ch name a b d e f),
)
