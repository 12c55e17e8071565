-- ===== src/Gatt/Served/Dispatching.antt =====
-- A call from the bus to an object whose set-up has put one interface into its table of handlers.
use bluetooth_le.Prelude.{
  ℕ, ◌≡◌, refl, [], ◌∷◌, ◌++◌, Option, none, some, Text, codes, text_eq_refl, Dict, find, arith,
}
use bluetooth_le.Gio.{Variant, Environment, Outcome, return_dbus_error}
use bluetooth_le.DBusTypes.{DBusMethodCall}
use bluetooth_le.Connection.{DBusConnection}
use bluetooth_le.Connection.Dispatch.{find_method, handle_method_call, error_unknown_method, dotted}
use bluetooth_le.DBusObject.{register_object}
use bluetooth_le.Gatt.Records.{Object, Method}
use bluetooth_le.Gatt.Served.{handlers_of, With, send_on}

-- The registration keeps the table of handlers.
pub register_object-handlers :
    (env : Environment) (o : Object) (c : DBusConnection)
    → (register_object env o c).1.method_handlers ≡ o.method_handlers
unfolding register_object
register_object-handlers env o c = ground arith

-- What the handlers get of a call from the bus.
abbrev pub request : Text → Text → Text → Option Variant → ℕ → DBusMethodCall
request sender interface method parameters i = record {
  sender = sender;
  interface = interface;
  method = method;
  parameters = parameters;
  invocation = some i;
}

module _ {A : Type 0} (run : Method → DBusMethodCall → With A → Outcome (Unit {0}) × With A)
    (interface : Text) (table : Dict Method) (sender : Text) (parameters : Option Variant) (i : ℕ)
    (s : With A) where
  -- The dispatch sees the table of handlers only.
  pub dispatched :
      (o : Object) (method : Text)
      → o.method_handlers ≡ (interface, table) ∷ []
      → handle_method_call send_on run (handlers_of o) sender interface method parameters i s
        ≡ find_method send_on run (some table) (request sender interface method parameters i) i s
  unfolding handle_method_call find
  dispatched o method e = rw (e, find, text_eq_refl interface) refl

  pub refused :
      (method : Text)
      → find method table ≡ none
      → find_method send_on run (some table) (request sender interface method parameters i) i s
        ≡ send_on
            (return_dbus_error i error_unknown_method
              (codes "Unknown method: " ++ dotted interface method))
            s
  unfolding find_method
  refused method e = rw (e, find_method) refl
