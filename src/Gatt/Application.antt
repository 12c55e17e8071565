-- ===== src/Gatt/Application.antt =====
-- src/GattApplication.cpp: the application, its services, its registration with BlueZ and the
-- dictionary of managed objects. The services are the values that they have at the time; a service
-- that has been added is not null. The pause before the registration is not modelled.
pub mod Services
pub mod Registry
pub mod Links
pub mod Registering
use bluetooth_le.Prelude.{
  ℕ, Bool, true, false, not, List, [], ◌∷◌, ◌++◌, Option, none, some, Text, codes, if◌then◌else◌,
  text_eq, Dict,
}
use bluetooth_le.ObjectPath.{DBusObjectPath}
use bluetooth_le.Uuid.{GattUuid, to_blue_z_format}
use bluetooth_le.Gio.{
  Value, Variant, Properties, Interfaces, Objects, Environment, string, object_path, boolean,
  string_array, object_path_array, objects, object_only, object_options, name_flags, return_value,
  return_error, failed,
}
use bluetooth_le.DBusTypes.{DBusMethodCall}
use bluetooth_le.Connection.{DBusConnection, call, is_connected, call_method}
use bluetooth_le.DBusObject.{new, add_interface, add_method, register_object}
use bluetooth_le.Gatt.Records.{
  Object, GattDescriptor, GattCharacteristic, GattService, get_managed_objects,
  gatt_service_interface, gatt_characteristic_interface, gatt_descriptor_interface,
  object_manager_interface, gatt_manager_interface,
}
use bluetooth_le.Gatt.Flags.{managed_characteristic_flags, managed_descriptor_flags}
use bluetooth_le.Gatt.Characteristic.{descriptor_paths}
use bluetooth_le.Gatt.Create.{characteristic_paths}

-- `registered` is the application's own field, which says that BlueZ knows the application; that of
-- `object` says that the object is on the bus.
pub record GattApplication : Type 0 where
  pub object : Object
  pub services : List GattService
  pub registered : Bool

abbrev pub adapter_path : DBusObjectPath
adapter_path = record { path = codes "/org/bluez/hci0" }

abbrev pub bus_path : DBusObjectPath
bus_path = record { path = codes "/org/freedesktop/DBus" }

-- The constructor; the answer to its request is not looked at.
unfoldable pub new_application :
    Environment → DBusObjectPath → DBusConnection → GattApplication × DBusConnection
unfolding new is_connected call_method
new_application env path c =
    let app : GattApplication = record { object = new path; services = []; registered = false } in
    let (connected, c1) = is_connected env c in
    let (answer, c2) =
      call_method env (codes "org.freedesktop.DBus") bus_path (codes "org.freedesktop.DBus")
        (codes "RequestName") (some (name_flags (codes "com.example.gatt") 0)) c1 in
    if connected then (app, c2) else (app, c1)

unfoldable pub has_service : Text → List GattService → Bool
unfolding text_eq
has_service uuid [] = false
has_service uuid (s ∷ ss) = if text_eq s.uuid.uuid uuid then true else has_service uuid ss

-- `none` is a null pointer.
unfoldable pub add_service : Option GattService → GattApplication → Bool × GattApplication
unfolding has_service
add_service none app = (false, app)
add_service (some s) app =
    if has_service s.uuid.uuid app.services
    then (false, app)
    else (true, record app { services = app.services ++ s ∷ [] })

pub erase_service : Text → List GattService → List GattService
unfolding text_eq
erase_service uuid [] = []
erase_service uuid (s ∷ ss) = if text_eq s.uuid.uuid uuid then ss else s ∷ erase_service uuid ss

unfoldable pub remove_service : GattUuid → GattApplication → Bool × GattApplication
unfolding has_service erase_service
remove_service uuid app =
    if has_service uuid.uuid app.services
    then (true, record app { services = erase_service uuid.uuid app.services })
    else (false, app)

pub find_service : Text → List GattService → Option GattService
unfolding text_eq
find_service uuid [] = none
find_service uuid (s ∷ ss) = if text_eq s.uuid.uuid uuid then some s else find_service uuid ss

unfoldable pub get_service : GattUuid → GattApplication → Option GattService
unfolding find_service
get_service uuid app = find_service uuid.uuid app.services

-- The three steps of `setupDBusInterfaces`, each only if the one before succeeded.
unfoldable pub add_get_managed_objects : Bool × Object → Bool × Object
unfolding add_method
add_get_managed_objects (false, o) = (false, o)
add_get_managed_objects (true, o) =
    add_method object_manager_interface (codes "GetManagedObjects") get_managed_objects o

module _ (env : Environment) where
  unfoldable pub finish_setup : Bool × Object → DBusConnection → Bool × Object × DBusConnection
  unfolding register_object
  finish_setup (false, o) c = (false, o, c)
  finish_setup (true, o) c = register_object env o c

  unfoldable pub setup_dbus_interfaces : Object → DBusConnection → Bool × Object × DBusConnection
  unfolding add_interface add_get_managed_objects finish_setup
  setup_dbus_interfaces o c =
      finish_setup (add_get_managed_objects (add_interface object_manager_interface [] o)) c

  -- What `registerWithBlueZ` does with the answer of its set-up.
  unfoldable pub ask_blue_z :
      Bool × Object × DBusConnection → GattApplication → Bool × GattApplication × DBusConnection
  unfolding call_method
  ask_blue_z (false, o, c) app = (false, record app { object = o }, c)
  ask_blue_z (true, o, c) app =
      let (answer, c1) =
        call_method env (codes "org.bluez") adapter_path gatt_manager_interface
          (codes "RegisterApplication") (some (object_options o.path.path)) c in
      elim answer [
        | none ↦ (false, record app { object = o }, c1)
        | some v ↦ (true, record app { object = o; registered = true }, c1)
      ]

  unfoldable pub register_with_blue_z :
      GattApplication → DBusConnection → Bool × GattApplication × DBusConnection
  unfolding setup_dbus_interfaces ask_blue_z
  register_with_blue_z app c =
      if app.registered then (true, app, c) else ask_blue_z (setup_dbus_interfaces app.object c) app

  unfoldable pub unregister_from_blue_z :
      GattApplication → DBusConnection → Bool × GattApplication × DBusConnection
  unfolding call_method
  unregister_from_blue_z app c =
      let (answer, c1) =
        call_method env (codes "org.bluez") adapter_path gatt_manager_interface
          (codes "UnregisterApplication") (some (object_only app.object.path.path)) c in
      if not app.registered then (true, app, c) else elim answer [
        | none ↦ (false, app, c1)
        | some v ↦ (true, record app { registered = false }, c1)
      ]

abbrev descriptor_properties : GattCharacteristic → GattDescriptor → Properties
descriptor_properties ch d =
    (codes "UUID", string (to_blue_z_format d.uuid))
    ∷ (codes "Characteristic", object_path ch.object.path.path)
    ∷ (codes "Flags", string_array (managed_descriptor_flags d.permissions))
    ∷ []

-- The objects of the descriptors of a characteristic.
pub descriptor_objects : GattCharacteristic → Dict (Option GattDescriptor) → Objects
unfolding to_blue_z_format managed_descriptor_flags
descriptor_objects ch [] = []
descriptor_objects ch ((uuid, none) ∷ m) = descriptor_objects ch m
descriptor_objects ch ((uuid, some d) ∷ m) =
    (d.object.path.path, (gatt_descriptor_interface, descriptor_properties ch d) ∷ [])
    ∷ descriptor_objects ch m

abbrev characteristic_properties : GattService → GattCharacteristic → Properties
characteristic_properties s ch =
    (codes "UUID", string (to_blue_z_format ch.uuid))
    ∷ (codes "Service", object_path s.object.path.path)
    ∷ (codes "Flags", string_array (managed_characteristic_flags ch.properties ch.permissions))
    ∷ (codes "Descriptors", object_path_array (descriptor_paths ch.descriptors))
    ∷ (codes "Notifying", boolean ch.notifying)
    ∷ []

pub characteristic_objects : GattService → Dict (Option GattCharacteristic) → Objects
unfolding to_blue_z_format managed_characteristic_flags descriptor_paths descriptor_objects
characteristic_objects s [] = []
characteristic_objects s ((uuid, none) ∷ m) = characteristic_objects s m
characteristic_objects s ((uuid, some ch) ∷ m) =
    (ch.object.path.path, (gatt_characteristic_interface, characteristic_properties s ch) ∷ [])
      ∷ descriptor_objects ch ch.descriptors
    ++ characteristic_objects s m

abbrev service_properties : GattService → Properties
service_properties s =
    (codes "UUID", string (to_blue_z_format s.uuid))
    ∷ (codes "Primary", boolean s.primary)
    ∷ (codes "Characteristics", object_path_array (characteristic_paths s.characteristics))
    ∷ []

-- `createManagedObjectsDict`
unfoldable pub managed_objects : List GattService → Objects
unfolding to_blue_z_format characteristic_paths characteristic_objects
managed_objects [] = []
managed_objects (s ∷ ss) =
    (s.object.path.path, (gatt_service_interface, service_properties s) ∷ [])
      ∷ characteristic_objects s s.characteristics
    ++ managed_objects ss

-- The dictionary is never a null pointer.
unfoldable pub handle_get_managed_objects :
    DBusMethodCall → GattApplication → DBusConnection → DBusConnection
unfolding managed_objects
handle_get_managed_objects m app c = elim m.invocation [
  | none ↦ c
  | some i ↦ call (return_value i (some (objects (managed_objects app.services)))) c
]
