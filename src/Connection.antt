-- ===== src/Connection.antt =====
-- include/DBusConnection.h and src/DBusConnection.cpp: the connection, the objects and signal
-- watches registered with it, and what it sends. Its dispatch of incoming calls is in `Dispatch`.
pub mod Dispatch
pub mod Registration
pub mod Delivery
pub mod Locks
pub mod Tests
use bluetooth_le.Prelude.{
  ℕ, Bool, true, false, not, List, [], ◌∷◌, ◌++◌, Option, none, some, Text, codes, ltb, ◌==◌,
  if◌then◌else◌, Dict, find, insert, erase,
}
use bluetooth_le.ObjectPath.{DBusObjectPath}
use bluetooth_le.Gio.{
  Value, Variant, Event, History, Environment, get_bus, is_closed, call_sync, emit_signal,
  register_interface, unregister_object, signal_subscribe, signal_unsubscribe,
}

-- `has_bus` says that the pointer is not null. A signal handler is named by a number. `history` is
-- what the whole program has asked of GIO.
pub record DBusConnection : Type 0 where
  pub has_bus : Bool
  pub registered_objects : Dict ℕ
  pub signal_handlers : List (ℕ × ℕ)
  pub history : History

abbrev pub call : Event → DBusConnection → DBusConnection
call e c = record c { history = e ∷ c.history }

module _ (env : Environment) where
  unfoldable pub is_connected : DBusConnection → Bool × DBusConnection
  is_connected c = if c.has_bus then (not (env.closed c.history), call is_closed c) else (false, c)

  unfoldable pub connect : DBusConnection → Bool × DBusConnection
  unfolding is_connected
  connect c =
      let (connected, c1) = is_connected c in
      if connected
      then (true, c1)
      else (if env.gives_bus c1.history
          then (true, record (call get_bus c1) { has_bus = true })
          else (false, call get_bus c1))

  -- The loops of `disconnect`, which do not look at the answers.
  pub unregister_all : Dict ℕ → DBusConnection → DBusConnection
  unregister_all [] c = c
  unregister_all ((path, id) ∷ m) c = unregister_all m (call (unregister_object id) c)

  pub unsubscribe_all : List (ℕ × ℕ) → DBusConnection → DBusConnection
  unsubscribe_all [] c = c
  unsubscribe_all ((id, handler) ∷ m) c = unsubscribe_all m (call (signal_unsubscribe id) c)

  unfoldable pub disconnect : DBusConnection → Bool × DBusConnection
  unfolding unregister_all unsubscribe_all
  disconnect c =
      let c1 = record (unregister_all c.registered_objects c) { registered_objects = [] } in
      let c2 = record (unsubscribe_all c1.signal_handlers c1) { signal_handlers = [] } in
      (true, record c2 { has_bus = false })

  unfoldable pub call_method :
      Text
      → DBusObjectPath
      → Text
      → Text
      → Option Variant
      → DBusConnection
      → Option Variant × DBusConnection
  unfolding is_connected
  call_method destination path interface method parameters c =
      let (connected, c1) = is_connected c in
      let e = call_sync destination path.path interface method parameters in
      if connected then (env.reply c1.history e, call e c1) else (none, c1)

  unfoldable pub send_signal :
      DBusObjectPath → Text → Text → Option Variant → DBusConnection → Bool × DBusConnection
  unfolding is_connected
  send_signal path interface name parameters c =
      let (connected, c1) = is_connected c in
      let e = emit_signal path.path interface name parameters in
      if connected then (env.emits c1.history e, call e c1) else (false, c1)

  -- Ending the builder without elements is an error in GLib, so the parameters are an answer of the
  -- environment, or a null pointer.
  unfoldable pub emit_property_changed :
      DBusObjectPath → Text → Text → Value → DBusConnection → Bool × DBusConnection
  unfolding send_signal
  emit_property_changed path interface name v c =
      let (connected, c1) = is_connected c in
      if connected
      then send_signal path (codes "org.freedesktop.DBus.Properties") (codes "PropertiesChanged")
          (env.property_parameters interface name v) c1
      else (false, c1)

  -- The loop over the interfaces of the XML. The result is the number of the last registration.
  pub register_all : DBusObjectPath → List Text → ℕ → DBusConnection → ℕ × DBusConnection
  register_all path [] id c = (id, c)
  register_all path (interface ∷ rest) id c =
      let new = env.registers c.history path.path interface in
      register_all path rest new (call (register_interface path.path interface new) c)

  -- The part of `register_object` behind the parser.
  pub register_parsed : DBusObjectPath → Option (List Text) → DBusConnection → Bool × DBusConnection
  unfolding register_all
  register_parsed path none c = (false, c)
  register_parsed path (some interfaces) c =
      let (id, c1) = register_all path interfaces 0 c in
      if id == 0
      then (false, c1)
      else (true, record c1 { registered_objects = insert path.path id c1.registered_objects })

  unfoldable pub register_object : DBusObjectPath → Text → DBusConnection → Bool × DBusConnection
  unfolding is_connected register_parsed find insert
  register_object path xml c =
      let (connected, c1) = is_connected c in
      if connected
      then elim (find path.path c1.registered_objects) [
        | some id ↦ (false, c1)
        | none ↦ register_parsed path (env.parses xml) c1
      ]
      else (false, c1)

  unfoldable pub unregister_path : DBusObjectPath → DBusConnection → Bool × DBusConnection
  unfolding is_connected find erase
  unregister_path path c =
      let (connected, c1) = is_connected c in
      if connected
      then elim (find path.path c1.registered_objects) [
        | none ↦ (false, c1)
        | some id ↦
            let c2 = call (unregister_object id) c1 in
            if env.unregisters c1.history id
            then (true, record c2 { registered_objects = erase path.path c2.registered_objects })
            else (false, c2)
      ]
      else (false, c1)

-- `std::map<guint, SignalHandler>`, in the order of its keys.
unfoldable pub insert_watch : ℕ → ℕ → List (ℕ × ℕ) → List (ℕ × ℕ)
insert_watch id handler [] = (id, handler) ∷ []
insert_watch id handler ((j, w) ∷ m) =
    if j == id
    then (id, handler) ∷ m
    else if ltb id j
    then (id, handler) ∷ (j, w) ∷ m
    else (j, w) ∷ insert_watch id handler m

unfoldable pub find_watch : ℕ → List (ℕ × ℕ) → Option ℕ
find_watch id [] = none
find_watch id ((j, w) ∷ m) = if j == id then some w else find_watch id m

unfoldable pub erase_watch : ℕ → List (ℕ × ℕ) → List (ℕ × ℕ)
erase_watch id [] = []
erase_watch id ((j, w) ∷ m) = if j == id then m else (j, w) ∷ erase_watch id m

module _ (env : Environment) where
  unfoldable pub add_signal_watch :
      Text → Text → Text → DBusObjectPath → ℕ → DBusConnection → ℕ × DBusConnection
  unfolding is_connected insert_watch
  add_signal_watch sender interface name path handler c =
      let (connected, c1) = is_connected env c in
      let e = signal_subscribe sender interface name path.path in
      let id = env.subscribes c1.history e in
      let c2 = call e c1 in
      if connected
      then (if ltb 0 id
          then (id, record c2 { signal_handlers = insert_watch id handler c2.signal_handlers })
          else (id, c2))
      else (0, c1)

  unfoldable pub remove_signal_watch : ℕ → DBusConnection → Bool × DBusConnection
  unfolding is_connected find_watch erase_watch
  remove_signal_watch id c =
      let (connected, c1) = is_connected env c in
      if connected
      then (if id == 0 then (false, c1) else elim (find_watch id c1.signal_handlers) [
        | none ↦ (false, c1)
        | some handler ↦ (
          true,
          record (call (signal_unsubscribe id) c1) {
            signal_handlers = erase_watch id c1.signal_handlers;
          },
        )
      ])
      else (false, c1)
