-- ===== src/Gatt/Characteristic/Notify.antt =====
-- A characteristic notifies only if its properties allow it.
use bluetooth_le.Prelude.{◌≡◌, sym, subst, Bool, true, false, ◌||◌, Text, arith}
use bluetooth_le.Gio.{Environment}
use bluetooth_le.DBusTypes.{DBusMethodCall}
use bluetooth_le.Connection.{DBusConnection}
use bluetooth_le.Gatt.Records.{GattCharacteristic}
use bluetooth_le.Gatt.Flags.{has, prop_notify, prop_indicate}
use bluetooth_le.Gatt.Characteristic.{
  set_value, start_notify, stop_notify, handle_write_value, handle_start_notify, handle_stop_notify,
}

-- The properties hold the bit for notifications or that for indications.
abbrev pub supports : GattCharacteristic → Bool
supports ch = has ch.properties prop_notify || has ch.properties prop_indicate

abbrev pub IsAllowed : GattCharacteristic → Type 0
IsAllowed ch = ch.notifying ≡ true → supports ch ≡ true

module _ (env : Environment) (ch : GattCharacteristic) (c : DBusConnection) where
  -- A call that succeeds leaves the characteristic notifying, one that fails leaves it as it was. A
  -- characteristic that does not notify yet starts only if its properties allow it.
  pub start_notify_outcome :
      let (ok, ch', c') = start_notify env ch c in
      (ok ≡ true → ch' ≡ record ch { notifying = true })
      × (ok ≡ false → ch' ≡ ch)
      × (ok ≡ true → ch.notifying ≡ false → supports ch ≡ true)
  unfolding start_notify
  start_notify_outcome = ground arith

  pub stop_notify_outcome :
      let (ok, ch', c') = stop_notify env ch c in
      (ok ≡ true → ch' ≡ record ch { notifying = false }) × (ok ≡ false → ch' ≡ ch)
  unfolding stop_notify
  stop_notify_outcome = ground arith

-- What can happen to a characteristic. The other parts of the program use the connection too, so
-- each step finds it in any state.
pub data Step (env : Environment) (ch ch' : GattCharacteristic) : Type 0 where
  value_set : (b : Text) (c : DBusConnection) → ch' ≡ (set_value env b ch c).0 → Step env ch ch'
  started : (c : DBusConnection) → ch' ≡ (start_notify env ch c).1 → Step env ch ch'
  stopped : (c : DBusConnection) → ch' ≡ (stop_notify env ch c).1 → Step env ch ch'
  written :
      (m : DBusMethodCall) (c : DBusConnection)
      → ch' ≡ (handle_write_value env m ch c).0
      → Step env ch ch'
  start_handled :
      (m : DBusMethodCall) (c : DBusConnection)
      → ch' ≡ (handle_start_notify env m ch c).0
      → Step env ch ch'
  stop_handled :
      (m : DBusMethodCall) (c : DBusConnection)
      → ch' ≡ (handle_stop_notify env m ch c).0
      → Step env ch ch'

pub data Run (env : Environment) (ch : GattCharacteristic) : GattCharacteristic → Type 0 where
  here : Run env ch ch
  next : {ch1 ch2 : GattCharacteristic} → Run env ch ch1 → Step env ch1 ch2 → Run env ch ch2

set_value-IsAllowed :
    (env : Environment) (b : Text) (ch : GattCharacteristic) (c : DBusConnection)
    → IsAllowed ch
    → IsAllowed (set_value env b ch c).0
unfolding set_value
set_value-IsAllowed env b ch c h = ground arith

write-IsAllowed :
    (env : Environment) (m : DBusMethodCall) (ch : GattCharacteristic) (c : DBusConnection)
    → IsAllowed ch
    → IsAllowed (handle_write_value env m ch c).0
unfolding handle_write_value
write-IsAllowed env m ch c h = ground arith

start-IsAllowed :
    (env : Environment) (ch : GattCharacteristic) (c : DBusConnection)
    → IsAllowed ch
    → IsAllowed (start_notify env ch c).1
unfolding start_notify
start-IsAllowed env ch c h = ground arith

stop-IsAllowed :
    (env : Environment) (ch : GattCharacteristic) (c : DBusConnection)
    → IsAllowed ch
    → IsAllowed (stop_notify env ch c).1
unfolding stop_notify
stop-IsAllowed env ch c h = ground arith

start_handled-IsAllowed :
    (env : Environment) (m : DBusMethodCall) (ch : GattCharacteristic) (c : DBusConnection)
    → IsAllowed ch
    → IsAllowed (handle_start_notify env m ch c).0
unfolding handle_start_notify
start_handled-IsAllowed env m ch c h = ground arith

stop_handled-IsAllowed :
    (env : Environment) (m : DBusMethodCall) (ch : GattCharacteristic) (c : DBusConnection)
    → IsAllowed ch
    → IsAllowed (handle_stop_notify env m ch c).0
unfolding handle_stop_notify
stop_handled-IsAllowed env m ch c h = ground arith

Step-IsAllowed :
    (env : Environment) (ch ch' : GattCharacteristic)
    → Step env ch ch'
    → IsAllowed ch
    → IsAllowed ch'
Step-IsAllowed env ch ch' (value_set b c e) h =
    subst IsAllowed (sym e) (set_value-IsAllowed env b ch c h)
Step-IsAllowed env ch ch' (started c e) h = subst IsAllowed (sym e) (start-IsAllowed env ch c h)
Step-IsAllowed env ch ch' (stopped c e) h = subst IsAllowed (sym e) (stop-IsAllowed env ch c h)
Step-IsAllowed env ch ch' (written m c e) h = subst IsAllowed (sym e) (write-IsAllowed env m ch c h)
Step-IsAllowed env ch ch' (start_handled m c e) h =
    subst IsAllowed (sym e) (start_handled-IsAllowed env m ch c h)
Step-IsAllowed env ch ch' (stop_handled m c e) h =
    subst IsAllowed (sym e) (stop_handled-IsAllowed env m ch c h)

-- Whatever calls come, in whatever order, a characteristic that does not notify at first notifies
-- only if its properties have the bit for notifications or that for indications.
pub Run-IsAllowed :
    {env : Environment} {ch ch' : GattCharacteristic}
    → ch.notifying ≡ false
    → Run env ch ch'
    → IsAllowed ch'
Run-IsAllowed quiet here = λ e. cc
Run-IsAllowed {env} quiet (next {ch1} {ch2} r s) =
    Step-IsAllowed env ch1 ch2 s (Run-IsAllowed quiet r)
