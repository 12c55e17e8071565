-- ===== src/Gatt/Served/Calls.antt =====
-- Calls from the bus to a characteristic and to an application.
use bluetooth_le.Prelude.{
  ℕ, ◌≡◌, ◌≢◌, refl, ◌∙◌, [], ◌∷◌, ◌++◌, Option, none, some, Text, codes, text_eq, text_eq_ne,
  text_lt, Dict, find, insert,
}
use bluetooth_le.ObjectPath.{DBusObjectPath}
use bluetooth_le.Gio.{Variant, Environment, return_dbus_error}
use bluetooth_le.DBusTypes.{DBusMethodCall}
use bluetooth_le.Connection.{DBusConnection, call}
use bluetooth_le.Connection.Dispatch.{
  run_handler, find_method, handle_method_call, error_unknown_method,
}
use bluetooth_le.DBusObject.{new, add_interface, add_method, entry}
use bluetooth_le.Gatt.Records.{
  Object, Method, GattCharacteristic, gatt_characteristic_interface, read_value, write_value,
  start_notify, stop_notify,
}
use bluetooth_le.Gatt.Setup.{setup, add_methods, characteristic_properties, setup_characteristic}
use bluetooth_le.Gatt.Characteristic.{
  handle_read_value, handle_write_value, handle_start_notify, handle_stop_notify,
}
use bluetooth_le.Gatt.Served.Dispatching.{register_object-handlers, request, dispatched, refused}
use bluetooth_le.Gatt.Served.{handlers_of, With, send_on, run_characteristic}

unfoldable pub characteristic_handlers : Dict Method
characteristic_handlers =
    (codes "ReadValue", read_value)
    ∷ (codes "StartNotify", start_notify)
    ∷ (codes "StopNotify", stop_notify)
    ∷ (codes "WriteValue", write_value)
    ∷ []

-- The object behind the addition of its methods.
unfoldable pub prepared : DBusObjectPath → Object
unfolding add_methods add_interface new
prepared path =
    (add_methods gatt_characteristic_interface
      ((codes "ReadValue", read_value)
        ∷ (codes "WriteValue", write_value)
        ∷ (codes "StartNotify", start_notify)
        ∷ (codes "StopNotify", stop_notify)
        ∷ [])
      (add_interface gatt_characteristic_interface characteristic_properties (new path)).1).1

-- A characteristic whose set-up has been tried has the four handlers, in the order of their names.
pub setup_characteristic-handlers :
    (env : Environment) (path : DBusObjectPath) (c : DBusConnection)
    → (setup_characteristic env (new path) c).1.method_handlers
      ≡ (gatt_characteristic_interface, characteristic_handlers) ∷ []
unfolding setup_characteristic setup add_methods new add_interface add_method insert find entry
    characteristic_handlers prepared text_eq text_lt
setup_characteristic-handlers env path c = register_object-handlers env (prepared path) c

-- A call from the bus to a characteristic whose set-up has been tried.
abbrev pub characteristic_call :
    Environment
    → DBusObjectPath
    → DBusConnection
    → Text
    → Text
    → Option Variant
    → ℕ
    → With GattCharacteristic
    → With GattCharacteristic
characteristic_call env path c0 sender method parameters i s =
    handle_method_call send_on (run_characteristic env)
      (handlers_of (setup_characteristic env (new path) c0).1) sender gatt_characteristic_interface
      method parameters i s

unknown :
    (method : Text)
    → codes "ReadValue" ≢ method
    → codes "StartNotify" ≢ method
    → codes "StopNotify" ≢ method
    → codes "WriteValue" ≢ method
    → find method characteristic_handlers ≡ none
unfolding find characteristic_handlers
unknown method a b d e = rw (text_eq_ne (codes "ReadValue") method a) (
    rw (text_eq_ne (codes "StartNotify") method b) (
      rw (text_eq_ne (codes "StopNotify") method d)
        (rw (text_eq_ne (codes "WriteValue") method e) refl)))

characteristic_dispatched :
    (env : Environment) (path : DBusObjectPath) (c0 : DBusConnection) (sender : Text)
    (parameters : Option Variant) (i : ℕ) (s : With GattCharacteristic) (method : Text)
    → characteristic_call env path c0 sender method parameters i s
      ≡ find_method send_on
          (run_characteristic env)
          (some characteristic_handlers)
          (request sender gatt_characteristic_interface method parameters i)
          i
          s
characteristic_dispatched env path c0 sender parameters i s method =
    dispatched (run_characteristic env) gatt_characteristic_interface characteristic_handlers sender
      parameters i s (setup_characteristic env (new path) c0).1 method
      (setup_characteristic-handlers env path c0)

-- The bus reaches a characteristic as its set-up says, whether the registration succeeded or not: each
-- of the four methods of its interface runs the handler of that name on the present state, and a call
-- of any other method of the interface leaves the characteristic alone and is answered with the error
-- UnknownMethod.
pub characteristic_call-runs :
    (env : Environment) (path : DBusObjectPath) (c0 : DBusConnection) (sender : Text)
    (parameters : Option Variant) (i : ℕ) (ch : GattCharacteristic) (c : DBusConnection)
    → let received : Text → With GattCharacteristic =
        λ method. characteristic_call env path c0 sender method parameters i (ch, c) in
      let asked : Text → DBusMethodCall =
        λ method. request sender gatt_characteristic_interface method parameters i in
      (received (codes "ReadValue") ≡ (ch, handle_read_value env (asked (codes "ReadValue")) ch c))
      × (received (codes "WriteValue") ≡ handle_write_value env (asked (codes "WriteValue")) ch c)
      × (received (codes "StartNotify")
          ≡ handle_start_notify env (asked (codes "StartNotify")) ch c)
      × (received (codes "StopNotify") ≡ handle_stop_notify env (asked (codes "StopNotify")) ch c)
      × ((method : Text)
          → codes "ReadValue" ≢ method
          → codes "StartNotify" ≢ method
          → codes "StopNotify" ≢ method
          → codes "WriteValue" ≢ method
          → received method ≡ (
            ch,
            call
                (return_dbus_error i error_unknown_method (
                  codes "Unknown method: " ++ gatt_characteristic_interface ++ codes "." ++ method))
                c,
          ))
unfolding find_method run_handler run_characteristic find text_eq characteristic_handlers
characteristic_call-runs env path c0 sender parameters i ch c = (
  characteristic_dispatched env path c0 sender parameters i (ch, c) (codes "ReadValue"),
  characteristic_dispatched env path c0 sender parameters i (ch, c) (codes "WriteValue"),
  characteristic_dispatched env path c0 sender parameters i (ch, c) (codes "StartNotify"),
  characteristic_dispatched env path c0 sender parameters i (ch, c) (codes "StopNotify"),
  λ method a b d e.
      characteristic_dispatched env path c0 sender parameters i (ch, c) method
      ∙ refused (run_characteristic env) gatt_characteristic_interface characteristic_handlers
          sender parameters i (ch, c) method (unknown method a b d e),
)
