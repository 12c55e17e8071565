-- ===== src/Gatt/Served/Descriptors.antt =====
-- Calls from the bus to a descriptor.
use bluetooth_le.Prelude.{ℕ, [], ◌∷◌, Option, Text, codes, Dict}
use bluetooth_le.ObjectPath.{DBusObjectPath}
use bluetooth_le.Gio.{Variant, Environment, Outcome, returns}
use bluetooth_le.DBusTypes.{DBusMethodCall}
use bluetooth_le.Connection.{DBusConnection}
use bluetooth_le.Connection.Dispatch.{handle_method_call}
use bluetooth_le.DBusObject.{new, add_interface}
use bluetooth_le.Gatt.Records.{
  Object, Method, GattCharacteristic, GattDescriptor, gatt_descriptor_interface, read_value,
  write_value,
}
use bluetooth_le.Gatt.Setup.{add_methods, descriptor_properties, setup_descriptor}
use bluetooth_le.Gatt.Descriptor.{handle_read_value, handle_write_value}
use bluetooth_le.Gatt.Served.{handlers_of, With, send_on}

-- The closures of a descriptor, which may change its characteristic. It has two methods.
unfoldable pub run_descriptor :
    Environment
    → Method
    → DBusMethodCall
    → With (GattDescriptor × GattCharacteristic)
    → Outcome (Unit {0}) × With (GattDescriptor × GattCharacteristic)
unfolding handle_read_value handle_write_value
run_descriptor env read_value m ((d, ch), c) = (returns tt, ((d, ch), handle_read_value env m d c))
run_descriptor env write_value m ((d, ch), c) = (returns tt, handle_write_value env m d ch c)
run_descriptor env _ m s = (returns tt, s)

descriptor_handlers : Dict Method
descriptor_handlers = (codes "ReadValue", read_value) ∷ (codes "WriteValue", write_value) ∷ []

-- The object behind the addition of its methods.
unfoldable prepared : DBusObjectPath → Object
unfolding add_methods add_interface new
prepared path =
    (add_methods gatt_descriptor_interface
      ((codes "ReadValue", read_value) ∷ (codes "WriteValue", write_value) ∷ [])
      (add_interface gatt_descriptor_interface descriptor_properties (new path)).1).1

-- A call from the bus to a descriptor whose set-up has been tried.
abbrev pub descriptor_call :
    Environment
    → DBusObjectPath
    → DBusConnection
    → Text
    → Text
    → Option Variant
    → ℕ
    → With (GattDescriptor × GattCharacteristic)
    → With (GattDescriptor × GattCharacteristic)
descriptor_call env path c0 sender method parameters i s =
    handle_method_call send_on (run_descriptor env)
      (handlers_of (setup_descriptor env (new path) c0).1) sender gatt_descriptor_interface method
      parameters i s
