-- ===== src/Gatt/Served/ManagedObjects.antt =====
-- The call from the bus by which BlueZ gets the objects of an application.
use bluetooth_le.Prelude.{
  ℕ, ◌≡◌, ap, [], ◌∷◌, Option, some, Text, codes, text_eq, text_lt, find, insert,
}
use bluetooth_le.ObjectPath.{DBusObjectPath}
use bluetooth_le.Gio.{Variant, Environment, return_value, objects}
use bluetooth_le.Connection.{DBusConnection, call}
use bluetooth_le.Connection.Dispatch.{run_handler, find_method, handle_method_call}
use bluetooth_le.DBusObject.{new, add_interface, add_method, entry}
use bluetooth_le.Gatt.Records.{Object, object_manager_interface, get_managed_objects}
use bluetooth_le.Gatt.Application.{
  GattApplication, handle_get_managed_objects, managed_objects, setup_dbus_interfaces,
  add_get_managed_objects, finish_setup,
}
use bluetooth_le.Gatt.Served.{handlers_of, With, send_on, run_application}
use bluetooth_le.Gatt.Served.Dispatching.{register_object-handlers, request}

-- The object behind the addition of its method.
prepared : DBusObjectPath → Object
unfolding add_get_managed_objects add_interface new
prepared path = (add_get_managed_objects (add_interface object_manager_interface [] (new path))).1

setup-handlers :
    (env : Environment) (path : DBusObjectPath) (c : DBusConnection)
    → (setup_dbus_interfaces env (new path) c).1.method_handlers
      ≡ (object_manager_interface, (codes "GetManagedObjects", get_managed_objects) ∷ []) ∷ []
unfolding setup_dbus_interfaces finish_setup add_get_managed_objects new add_interface add_method
    insert find entry prepared text_eq text_lt
setup-handlers env path c = register_object-handlers env (prepared path) c

-- A call from the bus to an application whose set-up has been tried.
abbrev pub application_call :
    Environment
    → DBusObjectPath
    → DBusConnection
    → Text
    → Text
    → Option Variant
    → ℕ
    → With GattApplication
    → With GattApplication
application_call env path c0 sender method parameters i s =
    handle_method_call send_on run_application
      (handlers_of (setup_dbus_interfaces env (new path) c0).1) sender object_manager_interface
      method parameters i s

-- Once the set-up of an application has been tried, a call of GetManagedObjects from the bus calls
-- `g_dbus_method_invocation_return_value`, whatever the parameters are, once and with the dictionary of
-- the services that the application has when the call comes in, and does nothing else. GIO asks for a
-- tuple there, and the dictionary is none, so this call is a documented error and no reply to the
-- invocation.
pub application_call-managed_objects :
    (env : Environment) (path : DBusObjectPath) (c0 : DBusConnection) (sender : Text)
    (parameters : Option Variant) (i : ℕ) (app : GattApplication) (c : DBusConnection)
    → application_call env path c0 sender (codes "GetManagedObjects") parameters i (app, c)
      ≡ (app, call (return_value i (some (objects (managed_objects app.services)))) c)
unfolding handle_method_call find_method run_handler run_application handle_get_managed_objects find
    text_eq
application_call-managed_objects env path c0 sender parameters i app c =
    ap
      (λ t.
        find_method send_on run_application (find object_manager_interface t)
          (request sender object_manager_interface (codes "GetManagedObjects") parameters i) i
          (app, c))
      (setup-handlers env path c0)
