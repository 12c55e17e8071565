-- ===== src/Connection/Locks.antt =====
-- src/DBusConnection.cpp: the signal watches with the mutex of the connection, which `handleSignal`
-- holds while the handlers run. What a handler does is a program of its own.
pub mod Signals
pub mod Tests
use bluetooth_le.Prelude.{
  ◌≡◌, ℕ, Bool, true, false, List, [], ◌∷◌, none, some, Text, ltb, ◌==◌, if◌then◌else◌, arith,
}
use bluetooth_le.ObjectPath.{DBusObjectPath}
use bluetooth_le.Gio.{Variant, Environment, signal_subscribe, signal_unsubscribe, signal_handler}
use bluetooth_le.Connection.{
  DBusConnection, call, is_connected, insert_watch, find_watch, erase_watch, add_signal_watch,
  remove_signal_watch,
}
use bluetooth_le.Threads.{Program, return, ◌>>=◌, ◌>>◌, guarded, get, modify, change}
use bluetooth_le.Threads.Alone.{run}

abbrev pub Code : Type 0 → Type 0
Code A = Program DBusConnection A

abbrev pub Handlers : Type 0
Handlers = ℕ → Text → Variant → Code (Unit {0})

abbrev pub connection_mutex : ℕ
connection_mutex = 0

module _ (env : Environment) where
  abbrev pub subscribe :
      Text → Text → Text → DBusObjectPath → ℕ → DBusConnection → ℕ × DBusConnection
  subscribe sender interface name path handler c =
      let e = signal_subscribe sender interface name path.path in
      let id = env.subscribes c.history e in
      let c1 = call e c in
      if ltb 0 id
      then (id, record c1 { signal_handlers = insert_watch id handler c1.signal_handlers })
      else (id, c1)

  unfoldable pub add_watch : Text → Text → Text → DBusObjectPath → ℕ → Code ℕ
  add_watch sender interface name path handler = do
    connected ← change (is_connected env)
    (if connected
        then guarded connection_mutex (change (subscribe sender interface name path handler))
        else return 0)

  abbrev pub unsubscribe : ℕ → DBusConnection → Bool × DBusConnection
  unsubscribe id c = elim (find_watch id c.signal_handlers) [
    | none ↦ (false, c)
    | some handler ↦ (
      true,
      record (call (signal_unsubscribe id) c) {
        signal_handlers = erase_watch id c.signal_handlers;
      },
    )
  ]

  unfoldable pub remove_watch : ℕ → Code Bool
  remove_watch id = do
    connected ← change (is_connected env)
    (if connected
        then (if id == 0 then return false else guarded connection_mutex (change (unsubscribe id)))
        else return false)

  pub add_watch-run :
      (sender interface name : Text) (path : DBusObjectPath) (handler : ℕ) (c : DBusConnection)
      → run (add_watch sender interface name path handler) c
        ≡ add_signal_watch env sender interface name path handler c
  unfolding run add_watch add_signal_watch is_connected ◌>>=◌ guarded
  add_watch-run sender interface name path handler c = ground arith

  pub remove_watch-run :
      (id : ℕ) (c : DBusConnection) → run (remove_watch id) c ≡ remove_signal_watch env id c
  unfolding run remove_watch remove_signal_watch is_connected ◌>>=◌ guarded
  remove_watch-run id c = ground arith

-- The loop of `handleSignal`, whose handlers catch their exceptions.
unfoldable pub deliver : Handlers → List (ℕ × ℕ) → Text → Variant → Code (Unit {0})
deliver handlers [] name v = return tt
deliver handlers ((id, w) ∷ m) name v = do
  modify (call (signal_handler w name v))
  handlers w name v
  deliver handlers m name v

unfoldable pub handle_signal : Handlers → Text → Variant → Code (Unit {0})
handle_signal handlers name v =
    guarded connection_mutex
      (get (λ c. c.signal_handlers) >>= λ watches. deliver handlers watches name v)
