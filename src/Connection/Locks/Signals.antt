-- ===== src/Connection/Locks/Signals.antt =====
-- What the mutex of the connection means for the handlers of signals.
use bluetooth_le.Prelude.{
  zero, suc, ◌<◌, refl, ◌≡◌, ℕ, Bool, true, false, List, [], ◌∷◌, none, Text, ◌==◌, arith,
}
use bluetooth_le.Gio
use bluetooth_le.Gio.{Variant, Environment}
use bluetooth_le.Connection.{DBusConnection, call, is_connected}
use bluetooth_le.Threads.{
  Program, return, ◌>>=◌, ◌>>◌, guarded, System, init, Reach, start, step, advance, is_finished,
  IsDeadlock,
}
use bluetooth_le.Threads.Alone.{run, drive, drive-Reach, picks}
use bluetooth_le.Connection.Dispatch
use bluetooth_le.Connection.Locks.{
  Code, Handlers, connection_mutex, remove_watch, deliver, handle_signal,
}

-- With handlers that do nothing else, `handleSignal` alone is the function without the mutex.
deliver-run :
    (m : List (ℕ × ℕ)) (name : Text) (v : Variant) (c : DBusConnection)
    → run
        (deliver (λ _ _ _. return tt) m name v >>= λ a. Program.release connection_mutex (return a))
        c
      ≡ (tt, Dispatch.deliver m name v c)
unfolding run deliver Dispatch.deliver ◌>>=◌ ◌>>◌
deliver-run [] name v c = refl
deliver-run ((id, w) ∷ m) name v c = deliver-run m name v (call (Gio.signal_handler w name v) c)

handle_signal-run :
    (name : Text) (v : Variant) (c : DBusConnection)
    → run (handle_signal (λ _ _ _. return tt) name v) c ≡ (tt, Dispatch.handle_signal name v c)
unfolding run handle_signal Dispatch.handle_signal ◌>>=◌ guarded
handle_signal-run name v c = deliver-run c.signal_handlers name v c

-- One thread, in which GLib calls `handleSignal`.
abbrev pub signalled : Handlers → Text → Variant → DBusConnection → System DBusConnection
signalled handlers name v c = init c (λ _. handle_signal handlers name v)

abbrev steps : List ℕ
steps = 0 ∷ 0 ∷ 0 ∷ 0 ∷ []

module _ (env : Environment) (handlers : Handlers) (id other w : ℕ) (name : Text) (v : Variant)
    (rest : List (ℕ × ℕ)) (k : Bool → Code (Unit {0})) (c : DBusConnection)
    (first : c.signal_handlers ≡ (other, w) ∷ rest)
    (removes : handlers w name v ≡ (remove_watch env id >>= k)) (valid : (id == 0) ≡ false)
    (has_bus : c.has_bus ≡ true)
    (open_bus : env.closed (Gio.signal_handler w name v ∷ c.history) ≡ false) where
  blocked : (j : ℕ) → j < 1 → step j (drive steps (signalled handlers name v c)) ≡ none
  unfolding drive step advance handle_signal deliver remove_watch guarded ◌>>=◌ ◌>>◌ is_connected
  blocked zero l = rw (first, removes, has_bus, open_bus, valid) refl
  blocked (suc j) l = absurd (omega arith)

  waits : is_finished ((drive steps (signalled handlers name v c)).threads 0) ≡ false
  unfolding drive step advance handle_signal deliver remove_watch guarded ◌>>=◌ ◌>>◌ is_connected
      is_finished
  waits = rw (first, removes, has_bus, open_bus, valid) refl

  -- The first handler that `handleSignal` calls begins with taking a watch with a number other than 0
  -- away, and the connection is open. Then the call comes to a deadlock: the handler waits for the mutex
  -- that `handleSignal` itself holds.
  pub handle_signal-IsDeadlock :
      (t : System DBusConnection) × Reach 1 (signalled handlers name v c) t × IsDeadlock 1 t
  unfolding picks
  handle_signal-IsDeadlock =
      let s = signalled handlers name v c in
      (drive steps s, drive-Reach 1 steps s s refl start, (blocked, 0, omega arith, waits))
