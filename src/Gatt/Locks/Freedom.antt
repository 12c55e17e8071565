-- ===== src/Gatt/Locks/Freedom.antt =====
-- Threads that use a characteristic and its descriptor, each by a list of operations one after another.
use mathlib.Core.Bool.{true≢false}
use bluetooth_le.Prelude.{
  sym, ap, ◌∙◌, ◌&&◌, ℕ, ◌≡◌, refl, Bool, true, false, List, [], ◌∷◌, none, some, Option, arith,
}
use bluetooth_le.Gio.{Environment}
use bluetooth_le.Threads.{return, ◌>>◌, init, System, Reach, IsDeadlock, is_finished}
use bluetooth_le.Threads.Order.{Above, act-Ordered, guarded-Ordered, then-Ordered}
use bluetooth_le.Threads.Progress.{no-IsDeadlock}
use bluetooth_le.Threads.Alone.{run, alone}
use bluetooth_le.Gatt.Records.{ReadCallback, WriteCallback, NotifyCallback}
use bluetooth_le.Gatt.Locks
use bluetooth_le.Gatt.Locks.{Shared, Code, read_field, write_field, ask, answer}
use bluetooth_le.Gatt.Locks.Descriptors
use bluetooth_le.Gatt.Locks.Fields
use bluetooth_le.Gatt.Locks.Descriptors.{look, put}
use bluetooth_le.Gatt.Locks.Sequential.{run-bind}
use bluetooth_le.Gatt.Locks.Sequential.Programs.{program-run}
use bluetooth_le.Gatt.Locks.Order.{
  Law, Leaves, mutexes, Keeps, Ordered, order, HasReader, set_value-Ordered, start_notify-Ordered,
  stop_notify-Ordered,
}
use bluetooth_le.Gatt.Locks.Order.Handlers.{
  handle_read_value-Ordered, handle_write_value-Ordered, handle_start_notify-Ordered,
  handle_stop_notify-Ordered,
}
use bluetooth_le.Gatt.Locks.Operations.{Operation, program, effects, effect, set_read_callback}
use bluetooth_le.Gatt.Locks.Order.Fields.{create_descriptor-Ordered}
use bluetooth_le.Gatt.Locks.Order.Descriptors.{
  descriptor_order, set_descriptor-Ordered, read_descriptor-Ordered, write_descriptor-Ordered,
}

-- All but an operation that takes the read callback away.
abbrev pub keeps_reader : Operation → Bool
keeps_reader (set_read_callback none) = false
keeps_reader _ = true

set_reader-Ordered : (w : Law) (f : ReadCallback) → Ordered w [] (Fields.set_read_callback (some f))
unfolding Fields.set_read_callback Above
set_reader-Ordered w f = guarded-Ordered mutexes (Keeps w) [] 3 _ (omega arith) tt (
    act-Ordered mutexes (Keeps w) (3 ∷ []) _ (λ _. tt)
      (λ s good. record { reader = (f, refl); same = good.same; allowed = good.allowed }))

callback-Leaves_write : (f : Option WriteCallback) → Leaves (λ ch. record ch { write_callback = f })
callback-Leaves_write f = record {
  reader = λ ch. refl;
  properties = λ ch. refl;
  notifying = λ ch. refl;
}

callback-Leaves_notify :
    (f : Option NotifyCallback) → Leaves (λ ch. record ch { notify_callback = f })
callback-Leaves_notify f = record {
  reader = λ ch. refl;
  properties = λ ch. refl;
  notifying = λ ch. refl;
}

ruleset operations = (
  callback-Leaves_write, callback-Leaves_notify, create_descriptor-Ordered, set_value-Ordered,
  start_notify-Ordered, stop_notify-Ordered, handle_read_value-Ordered, handle_write_value-Ordered,
  handle_start_notify-Ordered, handle_stop_notify-Ordered, set_descriptor-Ordered,
  read_descriptor-Ordered, write_descriptor-Ordered,
)

unfoldable pub all : {A : Type 0} → (A → Bool) → List A → Bool
all f [] = true
all f (x ∷ l) = f x && all f l

-- A law that says nothing of the flag.
any_law : Shared → Law
any_law s = record {
  properties = s.characteristic.properties;
  allows = λ _. Unit;
  off = tt;
  on = λ _. tt;
}

reader_only : (s : Shared) → HasReader s → Keeps (any_law s) s
unfolding HasReader any_law
reader_only s reader = record { reader = reader; same = refl; allowed = tt }

module _ (env : Environment) where
  program-Ordered :
      (w : Law) (op : Operation) → keeps_reader op ≡ true → Ordered w [] (program env op)
  unfolding program Above Fields.is_notifying Fields.get_value Fields.get_descriptors
      Fields.get_descriptor Locks.get_notifying_property Locks.get_descriptors_property
      Fields.set_write_callback Fields.set_notify_callback Descriptors.get_value
      Descriptors.set_read_callback Descriptors.set_write_callback
  program-Ordered w (set_read_callback none) k = absurd (true≢false (sym k))
  program-Ordered w (set_read_callback (some f)) k = set_reader-Ordered w f
  program-Ordered w _ k = search (descriptor_order, operations, arith) depth 10

  -- One operation after the other.
  unfoldable pub script : List Operation → Code (Unit {0})
  script [] = return tt
  script (op ∷ rest) = program env op >> script rest

  pub script-Ordered :
      (w : Law) (ops : List Operation) → all keeps_reader ops ≡ true → Ordered w [] (script ops)
  unfolding script all
  script-Ordered w [] k = search order
  script-Ordered w (op ∷ ops) k =
      then-Ordered mutexes (Keeps w) [] (program env op) (script ops)
        (program-Ordered w op (ground arith)) (script-Ordered w ops (ground arith))

  script-run : (ops : List Operation) (s : Shared) → run (script ops) s ≡ (tt, effects env ops s)
  unfolding script effects run ◌>>◌
  script-run [] s = refl
  script-run (op ∷ ops) s =
      rw (run-bind (program env op) (λ _. script ops) s, program-run env op s)
        (script-run ops (effect env op s))

  -- Any number of threads use a characteristic and its descriptor, each by any list of the functions
  -- that lock its mutexes. If the characteristic has a read callback and no thread takes it away, then
  -- they never come to a deadlock, however they are interleaved.
  pub scripts_no-IsDeadlock :
      (n : ℕ) (scripts : ℕ → List Operation) (s : Shared) (t : System Shared)
      → HasReader s
      → ((i : ℕ) → all keeps_reader (scripts i) ≡ true)
      → Reach n (init s (λ i. script (scripts i))) t
      → ¬ IsDeadlock n t
  scripts_no-IsDeadlock n scripts s t reader keep r =
      no-IsDeadlock mutexes (Keeps (any_law s)) n s (λ i. script (scripts i)) t
        (reader_only s reader) (λ i l. script-Ordered (any_law s) (scripts i) (keep i)) r

  -- A thread that is alone with a characteristic which has a read callback, and does not take that away,
  -- comes to the end of its operations: it never waits for itself, has unlocked every mutex, and has
  -- done what the functions without mutexes do one after the other.
  pub script_alone :
      (ops : List Operation) (s : Shared)
      → HasReader s
      → all keeps_reader ops ≡ true
      → (last : System Shared) × Reach 1 (init s (λ _. script ops)) last
        × (is_finished (last.threads 0) ≡ true)
        × (last.shared ≡ effects env ops s)
        × ((m : ℕ) → last.owner m ≡ none)
  script_alone ops s reader keep =
      let (last, reach, finished, shared, free) =
        alone mutexes (Keeps (any_law s)) (script ops) s (reader_only s reader)
          (script-Ordered (any_law s) ops keep) in
      (last, reach, finished, shared ∙ ap (λ r. r.1) (script-run ops s), free)
