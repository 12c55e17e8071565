-- ===== src/Connection/Locks/Tests.antt =====
-- A signal handler that takes its own watch away.
use bluetooth_le.Prelude.{true, refl, [], ◌∷◌, codes}
use bluetooth_le.Gio.{boolean, value}
use bluetooth_le.Gio.Sample.{bus}
use bluetooth_le.Connection.{DBusConnection}
use bluetooth_le.Connection.Tests.{fresh}
use bluetooth_le.Threads.{System, Reach, IsDeadlock, return, ◌>>=◌}
use bluetooth_le.Connection.Locks.{Handlers, remove_watch}
use bluetooth_le.Connection.Locks.Signals.{signalled, handle_signal-IsDeadlock}

abbrev once : Handlers
once w name v = remove_watch bus 5 >>= λ _. return tt

abbrev watching : DBusConnection
watching = record fresh { signal_handlers = (5, 1) ∷ [] }

handle_signal-IsDeadlock_example :
    let s = signalled once (codes "On") (value (boolean true)) watching in
    (t : System DBusConnection) × Reach 1 s t × IsDeadlock 1 t
handle_signal-IsDeadlock_example =
    handle_signal-IsDeadlock bus once 5 5 1 (codes "On") (value (boolean true)) [] (λ _. return tt)
      watching refl refl refl refl refl
