-- ===== src/Gatt/Locks/Sequential.antt =====
-- One thread alone does with the mutexes what `Gatt.Characteristic` and `Gatt.Descriptor` say.
pub mod OfDescriptor
pub mod Programs
use bluetooth_le.Prelude.{
  ap, ℕ, ◌≡◌, refl, Bool, true, false, [], ◌∷◌, none, some, Text, arith, if◌then◌else◌,
  Option-cases, inl, inr,
}
use bluetooth_le.Gio.{Environment, write_callback, return_value}
use bluetooth_le.Threads.{Program, ◌>>=◌, ◌>>◌, guarded}
use bluetooth_le.Threads.Alone.{run}
use bluetooth_le.Uuid.{GattUuid}
use bluetooth_le.Gatt.Create
use bluetooth_le.Gatt.Create.{lookup}
use bluetooth_le.Gatt.Characteristic
use bluetooth_le.Gatt.Characteristic.{string_from_byte_array}
use bluetooth_le.Gatt.Descriptor
use bluetooth_le.Gatt.Descriptor.{is_configuration}
use bluetooth_le.Gatt.Locks
use bluetooth_le.Gatt.Locks.{Shared, Code}
use bluetooth_le.Gatt.Locks.Descriptors
use bluetooth_le.Gatt.Locks.Fields
use bluetooth_le.DBusTypes.{DBusMethodCall}
use bluetooth_le.Gatt.Locks.Operations.{
  read_value, write_value, handle_start, handle_stop, set_descriptor, write_descriptor,
  read_descriptor, Operation, program, effect, stored, stored_both, set_value, start_notify,
  stop_notify, is_notifying, get_value, get_descriptors, get_notifying_property,
  get_descriptors_property, get_descriptor, create_descriptor, set_read_callback,
  set_write_callback, set_notify_callback, get_descriptor_value, set_descriptor_read,
  set_descriptor_write,
}
use bluetooth_le.Connection.{call}

pub run-bind :
    {S A B : Type 0} (p : Program S A) (k : A → Program S B) (s : S)
    → run (p >>= k) s ≡ run (k (run p s).0) (run p s).1
unfolding run ◌>>=◌
run-bind (Program.return a) k s = refl
run-bind (Program.acquire m p) k s = run-bind p k s
run-bind (Program.release m p) k s = run-bind p k s
run-bind (Program.act f next) k s = run-bind (next s) k (f s)

pub run-drop :
    {S A : Type 0} (p : Program S A) (s : S) → run (p >> Program.return tt) s ≡ (tt, (run p s).1)
unfolding run ◌>>◌
run-drop p s = rw run-bind refl

module _ (env : Environment) where
  pub set_value-run :
      (new : Text) (s : Shared)
      → run (Locks.set_value env new) s
        ≡ (tt, stored s (Characteristic.set_value env new s.characteristic s.connection))
  unfolding Locks.set_value Characteristic.set_value run ◌>>=◌ ◌>>◌ guarded Locks.announce_value
  set_value-run new s = ground arith

  pub start_notify-run :
      (s : Shared)
      → run (Locks.start_notify env) s ≡ (
          let (ok, ch, c) = Characteristic.start_notify env s.characteristic s.connection in
          (ok, stored s (ch, c)))
  unfolding Locks.start_notify Characteristic.start_notify Characteristic.announce run ◌>>=◌ ◌>>◌
      guarded Locks.announce Locks.announce_notifying Locks.started
  start_notify-run s = ground arith

  pub stop_notify-run :
      (s : Shared)
      → run (Locks.stop_notify env) s ≡ (
          let (ok, ch, c) = Characteristic.stop_notify env s.characteristic s.connection in
          (ok, stored s (ch, c)))
  unfolding Locks.stop_notify Characteristic.stop_notify Characteristic.announce run ◌>>=◌ ◌>>◌
      guarded Locks.announce Locks.announce_notifying
  stop_notify-run s = ground arith

  pub read_value-run :
      (m : DBusMethodCall) (s : Shared)
      → run (Locks.handle_read_value env m) s ≡ (tt, effect env (read_value m) s)
  unfolding Locks.handle_read_value Characteristic.handle_read_value Characteristic.reply_read run
      ◌>>=◌ ◌>>◌ guarded Locks.ask_read Locks.call_read Locks.called Locks.reply_read effect
  read_value-run m s = ground arith

  pub write_value-run :
      (m : DBusMethodCall) (s : Shared)
      → run (Locks.handle_write_value env m) s ≡ (tt, effect env (write_value m) s)
  unfolding Locks.handle_write_value Characteristic.handle_write_value
      Characteristic.write_parameters Characteristic.ask_write Characteristic.answer_write run ◌>>=◌
      ◌>>◌ guarded Locks.ask_write Locks.write_parameters Locks.called Locks.reply_write effect
  write_value-run m s = ground arith

  pub handle_start-run :
      (m : DBusMethodCall) (s : Shared)
      → run (Locks.handle_start_notify env m) s ≡ (tt, effect env (handle_start m) s)
  unfolding Locks.handle_start_notify Characteristic.handle_start_notify run effect
  handle_start-run m s = elim (Option-cases m.invocation) [
    | inl e ↦ ground (arith, e)
    | inr (i, e) ↦ rw (e, run-bind, start_notify-run s) (ground arith)
  ]

  pub handle_stop-run :
      (m : DBusMethodCall) (s : Shared)
      → run (Locks.handle_stop_notify env m) s ≡ (tt, effect env (handle_stop m) s)
  unfolding Locks.handle_stop_notify Characteristic.handle_stop_notify run effect
  handle_stop-run m s = elim (Option-cases m.invocation) [
    | inl e ↦ ground (arith, e)
    | inr (i, e) ↦ rw (e, run-bind, stop_notify-run s) (ground arith)
  ]

  created-run :
      (uuid : GattUuid) (permissions : ℕ) (key : Text) (s : Shared)
      → (run (Fields.create_descriptor_at env uuid permissions key) s).1 ≡ (
          let (d, ch, c) =
            Create.create_descriptor_at env key uuid permissions s.characteristic s.connection in
          stored s (ch, c))
  unfolding run ◌>>=◌ ◌>>◌ guarded Fields.create_descriptor_at Fields.descriptor_found
      Create.create_descriptor_at
  created-run uuid permissions [] s = refl
  created-run uuid permissions (x ∷ key) s = ground arith

  pub create_descriptor-run :
      (uuid : GattUuid) (permissions : ℕ) (s : Shared)
      → run (Fields.create_descriptor env uuid permissions >> Program.return tt) s
        ≡ (tt, effect env (create_descriptor uuid permissions) s)
  unfolding Fields.create_descriptor Create.create_descriptor effect
  create_descriptor-run uuid permissions s =
      rw (run-drop (Fields.create_descriptor_at env uuid permissions uuid.uuid) s)
        (ap (λ x. (tt, x)) (created-run uuid permissions uuid.uuid s))
