-- ===== src/Gatt/Locks/Sequential/Programs.antt =====
-- Every operation, run alone, has the effect of its function without mutexes.
use bluetooth_le.Prelude.{◌≡◌, refl}
use bluetooth_le.Gio.{Environment}
use bluetooth_le.Threads.{◌>>=◌, ◌>>◌, guarded}
use bluetooth_le.Threads.Alone.{run}
use bluetooth_le.Gatt.Locks
use bluetooth_le.Gatt.Locks.{Shared, Code}
use bluetooth_le.Gatt.Locks.Descriptors
use bluetooth_le.Gatt.Locks.Fields
use bluetooth_le.Gatt.Locks.Operations.{
  read_value, write_value, handle_start, handle_stop, set_descriptor, write_descriptor,
  read_descriptor, Operation, program, effect, set_value, start_notify, stop_notify, is_notifying,
  get_value, get_descriptors, get_notifying_property, get_descriptors_property, get_descriptor,
  create_descriptor, set_read_callback, set_write_callback, set_notify_callback,
  get_descriptor_value, set_descriptor_read, set_descriptor_write,
}
use bluetooth_le.Gatt.Locks.Sequential.{
  run-bind, set_value-run, start_notify-run, stop_notify-run, read_value-run, write_value-run,
  handle_start-run, handle_stop-run, create_descriptor-run,
}
use bluetooth_le.Gatt.Locks.Sequential.OfDescriptor.{
  set_descriptor-run, read_descriptor-run, write_descriptor-run,
}

module _ (env : Environment) where
  pub program-run : (op : Operation) (s : Shared) → run (program env op) s ≡ (tt, effect env op s)
  unfolding program effect run ◌>>◌ ◌>>=◌ guarded Fields.set_read_callback Fields.set_write_callback
      Fields.set_notify_callback Descriptors.set_read_callback Descriptors.set_write_callback
      Fields.get_value Descriptors.get_value Fields.get_descriptors Fields.get_descriptor
      Locks.get_notifying_property Locks.get_descriptors_property Fields.is_notifying
  program-run (set_value new) s = set_value-run env new s
  program-run start_notify s = rw (run-bind, start_notify-run env s) refl
  program-run stop_notify s = rw (run-bind, stop_notify-run env s) refl
  program-run (read_value m) s = read_value-run env m s
  program-run (write_value m) s = write_value-run env m s
  program-run (handle_start m) s = handle_start-run env m s
  program-run (handle_stop m) s = handle_stop-run env m s
  program-run (set_descriptor new) s = set_descriptor-run env new s
  program-run (read_descriptor m) s = read_descriptor-run env m s
  program-run (write_descriptor m) s = write_descriptor-run env m s
  program-run is_notifying s = refl
  program-run get_value s = refl
  program-run get_descriptors s = refl
  program-run get_notifying_property s = refl
  program-run get_descriptors_property s = refl
  program-run (get_descriptor uuid) s = refl
  program-run (create_descriptor uuid permissions) s = create_descriptor-run env uuid permissions s
  program-run (set_read_callback f) s = refl
  program-run (set_write_callback f) s = refl
  program-run (set_notify_callback f) s = refl
  program-run get_descriptor_value s = refl
  program-run (set_descriptor_read f) s = refl
  program-run (set_descriptor_write f) s = refl
