-- ===== src/Gatt/Locks/Deadlock.antt =====
-- Two threads that wait for each other: `setValue` holds the mutex of the value and wants that of the
-- callbacks, and `ReadValue` holds that of the callbacks and, with no read callback set, wants that of
-- the value.
use bluetooth_le.Prelude.{
  ℕ, zero, suc, ◌≡◌, ◌<◌, refl, true, false, List, [], ◌∷◌, none, some, Text, arith,
}
use bluetooth_le.Gio.{Environment, bytes}
use bluetooth_le.DBusTypes.{DBusMethodCall}
use bluetooth_le.Threads.{
  ◌>>=◌, ◌>>◌, guarded, init, System, advance, Reach, start, step, IsDeadlock, is_finished,
}
use bluetooth_le.Threads.Alone.{drive, drive-Reach, picks}
use bluetooth_le.Gatt.Locks
use bluetooth_le.Gatt.Locks.{Shared, Code}
use bluetooth_le.Gatt.Locks.Operations.{set_value, read_value, program}
use bluetooth_le.Gatt.Locks.Freedom.{script}

-- One thread sets the value, another answers `ReadValue`.
unfoldable pub both : Environment → Text → DBusMethodCall → ℕ → Code (Unit {0})
both env new m zero = script env (set_value new ∷ [])
both env new m (suc i) = script env (read_value m ∷ [])

abbrev order : List ℕ
order = 0 ∷ 0 ∷ 0 ∷ 0 ∷ 0 ∷ 0 ∷ 0 ∷ 1 ∷ 1 ∷ []

module _ (env : Environment) (new : Text) (m : DBusMethodCall) (i : ℕ) (s : Shared)
    (registered : s.characteristic.object.registered ≡ true)
    (notifying : s.characteristic.notifying ≡ true)
    (no_reader : s.characteristic.read_callback ≡ none) (builds : env.builds (bytes new) ≡ true)
    (invoked : m.invocation ≡ some i) where
  blocked : (j : ℕ) → j < 2 → step j (drive order (init s (both env new m))) ≡ none
  unfolding drive step advance both script program Locks.set_value Locks.announce_value
      Locks.handle_read_value Locks.ask_read guarded ◌>>=◌ ◌>>◌
  blocked zero l = rw (registered, builds, notifying, invoked) refl
  blocked (suc zero) l = rw (registered, builds, notifying, invoked, no_reader) refl
  blocked (suc (suc j)) l = absurd (omega arith)

  waits : is_finished ((drive order (init s (both env new m))).threads 0) ≡ false
  unfolding drive step advance both script program Locks.set_value Locks.announce_value
      Locks.handle_read_value Locks.ask_read guarded ◌>>=◌ ◌>>◌ is_finished
  waits = rw (registered, builds, notifying, invoked) refl

  -- When the characteristic is registered and notifies, has no read callback, and the new value can be
  -- built, a thread that sets the value and one that answers a `ReadValue` which has an
  -- invocation can come to a deadlock.
  pub set_read-IsDeadlock :
      (t : System Shared) × Reach 2 (init s (both env new m)) t × IsDeadlock 2 t
  unfolding picks
  set_read-IsDeadlock =
      let t0 = init s (both env new m) in
      (drive order t0, drive-Reach 2 order t0 t0 refl start, (blocked, 0, omega arith, waits))
