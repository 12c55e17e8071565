-- ===== src/Gatt/Application/Registering.antt =====
-- The registration with BlueZ: its set-up can be done once only.
use mathlib.Core.Bool.{true≢false}
use bluetooth_le.Prelude.{[], ◌≡◌, refl, sym, ap, ◌∙◌, Bool, true, false, arith, if◌then◌else◌}
use bluetooth_le.Gio.{Environment}
use bluetooth_le.Connection.{DBusConnection}
use bluetooth_le.DBusObject.{add_interface, register_object}
use bluetooth_le.Gatt.Records.{Object, object_manager_interface}
use bluetooth_le.Gatt.Application.{
  GattApplication, add_get_managed_objects, finish_setup, setup_dbus_interfaces, ask_blue_z,
  register_with_blue_z,
}

module _ (env : Environment) where
  register_object-registered :
      (o : Object) (c : DBusConnection)
      → (register_object env o c).0 ≡ true
      → (register_object env o c).1.registered ≡ true
  unfolding register_object
  register_object-registered o c e = ground arith

  setup_blocked :
      (o : Object) (c : DBusConnection)
      → o.registered ≡ true
      → setup_dbus_interfaces env o c ≡ (false, o, c)
  unfolding setup_dbus_interfaces
  setup_blocked o c e = rw (e, setup_dbus_interfaces, add_interface) refl

  finish-registered :
      (r : Bool × Object) (c : DBusConnection)
      → (finish_setup env r c).0 ≡ true
      → (finish_setup env r c).1.registered ≡ true
  finish-registered (false, o) c e = unfold finish_setup in elim (true≢false (sym e)) [ ]
  finish-registered (true, o) c e = unfold finish_setup in register_object-registered o c e

  setup-registered :
      (o : Object) (c : DBusConnection)
      → (setup_dbus_interfaces env o c).0 ≡ true
      → (setup_dbus_interfaces env o c).1.registered ≡ true
  setup-registered o c e =
      unfold setup_dbus_interfaces in
      finish-registered (add_get_managed_objects (add_interface object_manager_interface [] o)) c e

  ask_blue_z-failed :
      (r : Bool × Object × DBusConnection) (app : GattApplication)
      → (ask_blue_z env r app).0 ≡ false
      → (ask_blue_z env r app).1 ≡ record app { object = r.1 }
  unfolding ask_blue_z
  ask_blue_z-failed (false, o, c) app e = refl
  ask_blue_z-failed (true, o, c) app e = ground arith

  register_opened :
      (app : GattApplication) (c : DBusConnection)
      → app.registered ≡ false
      → register_with_blue_z env app c ≡ ask_blue_z env (setup_dbus_interfaces env app.object c) app
  register_opened app c q =
      unfold register_with_blue_z in
      ap
        (λ b.
          if b then (true, app, c) else ask_blue_z env (setup_dbus_interfaces env app.object c) app)
        q

  -- An application that is on the bus and that BlueZ does not know cannot be registered with BlueZ.
  register_blocked :
      (app : GattApplication) (c : DBusConnection)
      → app.object.registered ≡ true
      → app.registered ≡ false
      → register_with_blue_z env app c ≡ (false, app, c)
  register_blocked app c e q =
      register_opened app c q
      ∙ ap (λ r. ask_blue_z env r app) (setup_blocked app.object c e)
      ∙ (unfold ask_blue_z in refl)

-- If the set-up of an application succeeds and its registration with BlueZ fails, every later attempt
-- fails as well: it changes nothing and does not ask BlueZ, whatever the connection is by then.
pub register-retry :
    (env : Environment) (app : GattApplication) (c c' : DBusConnection)
    → app.registered ≡ false
    → (setup_dbus_interfaces env app.object c).0 ≡ true
    → (register_with_blue_z env app c).0 ≡ false
    → let app1 = (register_with_blue_z env app c).1 in
      register_with_blue_z env app1 c' ≡ (false, app1, c')
register-retry env app c c' q ok e =
    let opened = register_opened env app c q in
    let failed =
      ap (λ r. r.1) opened
      ∙ ask_blue_z-failed env (setup_dbus_interfaces env app.object c) app
          (ap (λ r. r.0) (sym opened) ∙ e) in
    register_blocked env (register_with_blue_z env app c).1 c'
      (ap (λ a. a.object.registered) failed ∙ setup-registered env app.object c ok)
      (ap (λ a. a.registered) failed ∙ q)
