-- ===== src/Gatt/Served.antt =====
-- How a call from the bus reaches the objects: the table of handlers that `registerObject` of
-- src/DBusObject.cpp hands to the connection, the closures that the three `setupDBusInterfaces` put into
-- it, and the dispatch of src/DBusConnection.cpp.
pub mod Dispatching
pub mod Calls
pub mod Answered
pub mod Descriptors
pub mod ManagedObjects
pub mod Properties
pub mod Tests
use bluetooth_le.Prelude.{List, Option, none}
use bluetooth_le.Gio.{Value, Event, Environment, Outcome, returns}
use bluetooth_le.DBusTypes.{DBusMethodCall}
use bluetooth_le.Connection.{DBusConnection, call}
use bluetooth_le.Connection.Dispatch.{HandlerData}
use bluetooth_le.Gatt.Records.{
  Getter, Setter, Method, Object, GattCharacteristic, read_value, write_value, start_notify,
  stop_notify, get_managed_objects, get_uuid, get_service, get_flags, get_descriptors,
  get_notifying,
}
use bluetooth_le.Gatt.Characteristic.{
  handle_read_value, handle_write_value, handle_start_notify, handle_stop_notify, get_uuid_property,
  get_service_property, get_properties_property, get_descriptors_property, get_notifying_property,
}
use bluetooth_le.Gatt.Application.{GattApplication, handle_get_managed_objects}

-- What the connection keeps of an object.
abbrev pub handlers_of : Object → HandlerData Getter Setter Method
handlers_of o = record { method_handlers = o.method_handlers; properties = o.interfaces }

-- An object and the connection it speaks through.
abbrev pub With : Type 0 → Type 0
With A = A × DBusConnection

abbrev pub send_on : {A : Type 0} → Event → With A → With A
send_on e (a, c) = (a, call e c)

-- The closures of a characteristic. It has no method of the object manager.
unfoldable pub run_characteristic :
    Environment
    → Method
    → DBusMethodCall
    → With GattCharacteristic
    → Outcome (Unit {0}) × With GattCharacteristic
unfolding handle_read_value handle_write_value handle_start_notify handle_stop_notify
run_characteristic env read_value m (ch, c) = (returns tt, (ch, handle_read_value env m ch c))
run_characteristic env write_value m (ch, c) = (returns tt, handle_write_value env m ch c)
run_characteristic env start_notify m (ch, c) = (returns tt, handle_start_notify env m ch c)
run_characteristic env stop_notify m (ch, c) = (returns tt, handle_stop_notify env m ch c)
run_characteristic env get_managed_objects m s = (returns tt, s)

-- The closure of an application, whose only method is that of the object manager.
unfoldable pub run_application :
    Method → DBusMethodCall → With GattApplication → Outcome (Unit {0}) × With GattApplication
unfolding handle_get_managed_objects
run_application get_managed_objects m (app, c) =
    (returns tt, (app, handle_get_managed_objects m app c))
run_application _ m s = (returns tt, s)

-- The getters of a characteristic, which throw nothing. It has no property of the other objects.
unfoldable pub get_of_characteristic :
    Environment → Getter → GattCharacteristic → Outcome (Option Value)
unfolding get_uuid_property get_service_property get_properties_property get_descriptors_property
    get_notifying_property
get_of_characteristic env get_uuid ch = returns (get_uuid_property env ch)
get_of_characteristic env get_service ch = returns (get_service_property env ch)
get_of_characteristic env get_flags ch = returns (get_properties_property env ch)
get_of_characteristic env get_descriptors ch = returns (get_descriptors_property env ch)
get_of_characteristic env get_notifying ch = returns (get_notifying_property env ch)
get_of_characteristic env _ ch = returns none
