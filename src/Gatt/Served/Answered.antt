-- ===== src/Gatt/Served/Answered.antt =====
-- Calls from the bus to a characteristic are handed back to GIO.
use mathlib.Core.Bool.{false≢true}
use bluetooth_le.Prelude.{ℕ, ◌≡◌, refl, subst, Bool, true, false, [], ◌∷◌, some, Text, arith, find}
use bluetooth_le.ObjectPath.{DBusObjectPath}
use bluetooth_le.Gio.{Environment}
use bluetooth_le.DBusTypes.{DBusMethodCall}
use bluetooth_le.Connection.{DBusConnection}
use bluetooth_le.Connection.Delivery.{HandsOver, handler_of}
use bluetooth_le.DBusObject.{new}
use bluetooth_le.Gatt.Records.{
  Method, GattCharacteristic, gatt_characteristic_interface, read_value, write_value, start_notify,
  stop_notify, get_managed_objects,
}
use bluetooth_le.Gatt.Setup.{setup_characteristic}
use bluetooth_le.Gatt.Characteristic.Replies.{
  read_counted, write_counted, start_counted, stop_counted,
}
use bluetooth_le.Gatt.Served.{handlers_of, send_on, run_characteristic}
use bluetooth_le.Gatt.Served.Calls.{characteristic_handlers, setup_characteristic-handlers}

abbrev is_own : Method → Bool
is_own get_managed_objects = false
is_own _ = true

found_is_own :
    (method : Text) (f : Method) → find method characteristic_handlers ≡ some f → is_own f ≡ true
unfolding find characteristic_handlers
found_is_own method f e = ground (arith, e)

-- Whatever handler the table of a characteristic has for a call is one of its own.
own_handler :
    (interface method : Text) (f : Method)
    → handler_of
        (find interface ((gatt_characteristic_interface, characteristic_handlers) ∷ []))
        method
      ≡ some f
    → is_own f ≡ true
unfolding find handler_of
own_handler interface method f e = ground (arith, e, found_is_own method f)

run_characteristic-HandsOver :
    (env : Environment) (m : DBusMethodCall) (i : ℕ) (ch : GattCharacteristic) (c : DBusConnection)
    (f : Method)
    → m.invocation ≡ some i
    → is_own f ≡ true
    → HandsOver (λ s. s.1.history) send_on (run_characteristic env) i (λ e s. refl) f m (ch, c)
unfolding run_characteristic
run_characteristic-HandsOver env m i ch c read_value e own =
    ground (arith, read_counted env true m i e ch c)
run_characteristic-HandsOver env m i ch c write_value e own =
    omega (arith, write_counted env true m i e ch c)
run_characteristic-HandsOver env m i ch c start_notify e own =
    omega (arith, start_counted env true m i e ch c)
run_characteristic-HandsOver env m i ch c stop_notify e own =
    omega (arith, stop_counted env true m i e ch c)
run_characteristic-HandsOver env m i ch c get_managed_objects e own = absurd (false≢true own)

-- The handler that set-up has registered for a call hands its invocation over.
pub registered-HandsOver :
    (env : Environment) (path : DBusObjectPath) (c0 : DBusConnection) (interface method : Text)
    (m : DBusMethodCall) (i : ℕ) (ch : GattCharacteristic) (c : DBusConnection)
    → m.invocation ≡ some i
    → (f : Method)
    → handler_of
        (find interface (handlers_of (setup_characteristic env (new path) c0).1).method_handlers)
        method
      ≡ some f
    → HandsOver (λ s. s.1.history) send_on (run_characteristic env) i (λ e s. refl) f m (ch, c)
registered-HandsOver env path c0 interface method m i ch c e f found =
    run_characteristic-HandsOver env m i ch c f e (
      own_handler interface method f (
        subst (λ t. handler_of (find interface t) method ≡ some f)
          (setup_characteristic-handlers env path c0) found))
