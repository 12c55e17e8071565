-- ===== src/Gatt/Locks/Tests.antt =====
-- Threads at a concrete characteristic.
use bluetooth_le.Prelude.{ℕ, zero, suc, ◌≡◌, refl, true, List, [], ◌∷◌, Option, none, some}
use bluetooth_le.Gio.{returns}
use bluetooth_le.Gio.Sample.{bus}
use bluetooth_le.Threads.{init, System, Reach, start, IsDeadlock, is_finished}
use bluetooth_le.Threads.Alone.{drive, drive-Reach, picks}
use bluetooth_le.Gatt.Records.{GattCharacteristic, ReadCallback}
use bluetooth_le.Gatt.Tests.{level, configuration, idle, request}
use bluetooth_le.Gatt.Create.{new_characteristic}
use bluetooth_le.Gatt.Locks.{Shared}
use bluetooth_le.Gatt.Locks.Operations.{
  Operation, set_value, start_notify, read_value, write_descriptor, handle_stop, effects,
}
use bluetooth_le.Gatt.Locks.Order.{HasReader}
use bluetooth_le.Gatt.Locks.Freedom.{script, all, keeps_reader, scripts_no-IsDeadlock, script_alone}
use bluetooth_le.Gatt.Characteristic.Notify.{IsAllowed}
use bluetooth_le.Gatt.Locks.Notifying.{scripts-IsAllowed}
use bluetooth_le.Gatt.Locks.Deadlock.{both, set_read-IsDeadlock}

-- The characteristic is registered and notifies, and may have a read callback.
abbrev notifying : Option ReadCallback → GattCharacteristic
notifying f = record level {
  object = record level.object { registered = true };
  notifying = true;
  read_callback = f;
}

abbrev shared : Option ReadCallback → Shared
shared f = record { descriptor = configuration; characteristic = notifying f; connection = idle }

abbrev reader : ReadCallback
reader h = returns (100 ∷ [])

abbrev tasks : ℕ → List Operation
tasks zero = set_value (99 ∷ []) ∷ []
tasks (suc i) = read_value request ∷ []

abbrev turns : List ℕ
turns = 0 ∷ 0 ∷ 0 ∷ 0 ∷ 0 ∷ 0 ∷ 0 ∷ 1 ∷ 1 ∷ []

tasks_keep : (i : ℕ) → all keeps_reader (tasks i) ≡ true
unfolding all
tasks_keep zero = refl
tasks_keep (suc i) = refl

abbrev begun : System Shared
begun = init (shared (some reader)) (λ i. script bus (tasks i))

scripts_no-IsDeadlock_example : ¬ IsDeadlock 2 (drive turns begun)
unfolding HasReader picks
scripts_no-IsDeadlock_example =
    scripts_no-IsDeadlock bus 2 tasks (shared (some reader)) (drive turns begun) (reader, refl)
      tasks_keep (drive-Reach 2 turns begun begun refl start)

-- One thread starts the notifications, the other answers a `StopNotify`.
abbrev changes : ℕ → List Operation
changes zero = start_notify ∷ []
changes (suc i) = handle_stop request ∷ []

changes_keep : (i : ℕ) → all keeps_reader (changes i) ≡ true
unfolding all
changes_keep zero = refl
changes_keep (suc i) = refl

abbrev changing : System Shared
changing = init (shared (some reader)) (λ i. script bus (changes i))

scripts-IsAllowed_example : IsAllowed (drive (1 ∷ 1 ∷ 1 ∷ 1 ∷ []) changing).shared.characteristic
unfolding HasReader picks new_characteristic
scripts-IsAllowed_example =
    scripts-IsAllowed bus 2 changes (shared (some reader)) (drive (1 ∷ 1 ∷ 1 ∷ 1 ∷ []) changing)
      (reader, refl) (λ e. refl) changes_keep
      (drive-Reach 2 (1 ∷ 1 ∷ 1 ∷ 1 ∷ []) changing changing refl start)

abbrev steps : List Operation
steps = write_descriptor request ∷ read_value request ∷ handle_stop request ∷ []

script_alone_example :
    (last : System Shared) × Reach 1 (init (shared (some reader)) (λ _. script bus steps)) last
    × (is_finished (last.threads 0) ≡ true)
    × (last.shared ≡ effects bus steps (shared (some reader)))
    × ((m : ℕ) → last.owner m ≡ none)
unfolding HasReader all
script_alone_example = script_alone bus steps (shared (some reader)) (reader, refl) refl

set_read-IsDeadlock_example :
    (t : System Shared) × Reach 2 (init (shared none) (both bus (99 ∷ []) request)) t
    × IsDeadlock 2 t
set_read-IsDeadlock_example =
    set_read-IsDeadlock bus (99 ∷ []) request 7 (shared none) refl refl refl refl refl
