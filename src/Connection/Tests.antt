-- ===== src/Connection/Tests.antt =====
-- The connection at concrete inputs.
use bluetooth_le.Prelude.{text_eq, ℕ, arith, length, ◌==◌, suc, ◌≡◌, refl, false, true, [], codes}
use bluetooth_le.ObjectPath.{DBusObjectPath}
use bluetooth_le.Gio.Sample.{bus}
use bluetooth_le.Gio.Replies.{registrations, unregistrations}
use bluetooth_le.Connection.{DBusConnection, register_object, unregister_path}
use bluetooth_le.Connection.Registration.{register-unregister}

abbrev pub fresh : DBusConnection
fresh = record { has_bus = true; registered_objects = []; signal_handlers = []; history = [] }

abbrev lamp : DBusObjectPath
lamp = record { path = codes "/lamp" }

suc-nonzero : (n : ℕ) → (suc n == 0) ≡ false
suc-nonzero n = ground arith

register-unregister_example :
    let c2 = (unregister_path bus lamp (register_object bus lamp (codes "<node/>") fresh).1).1 in
    (c2.registered_objects ≡ []) × (registrations c2.history ≡ 2) × (unregistrations c2.history ≡ 1)
unfolding register_object unregister_path text_eq
register-unregister_example =
    register-unregister bus lamp (codes "<node/>") fresh refl
      (λ h interface. suc-nonzero (length h)) refl refl
