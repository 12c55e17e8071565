-- ===== src/Server.antt =====
-- src/Server.cpp: the server's connection, its bus name and the properties of the adapter. No header
-- declares this class; its fields are those its constructor sets. GIO and the two members of the
-- application that no header has are a parameter.
pub mod References
mod Tests
use bluetooth_le.Prelude.{
  ℕ, Bool, true, false, not, ◌||◌, List, [], ◌∷◌, Option, none, some, Text, codes, ltb, ◌==◌,
  if◌then◌else◌,
}
use bluetooth_le.Gio.{Value, Variant, boolean}

pub data BusCall : Type 0 where
  own_name unown_name unregister_object : ℕ → BusCall
  ref_connection unref_connection : BusCall
  set_property : Text → Value → BusCall
  get_property : Text → BusCall
  register_application unregister_application : BusCall

-- By the calls so far, the latest first.
pub record Bus : Type 0 where
  -- `g_bus_own_name`; 0 is an error
  pub owns : List BusCall → ℕ
  -- `g_dbus_connection_call_sync` with `Set` and with `Get`; `false` and `none` are errors
  pub sets : List BusCall → Text → Value → Bool
  pub gets : List BusCall → Text → Option Variant
  -- `registerApplication`
  pub registers : List BusCall → Bool

-- `connected` says that `dbusConnection` is not null.
pub record Server : Type 0 where
  pub connected : Bool
  pub owned_name_id : ℕ
  pub registered_object_id : ℕ
  pub enable_bredr : Bool
  pub enable_discoverable : Bool
  pub enable_advertising : Bool
  pub enable_bondable : Bool
  pub calls : List BusCall

abbrev pub new_server : Server
new_server = record {
  connected = false;
  owned_name_id = 0;
  registered_object_id = 0;
  enable_bredr = false;
  enable_discoverable = true;
  enable_advertising = true;
  enable_bondable = true;
  calls = [];
}

abbrev pub call : BusCall → Server → Server
call e s = record s { calls = e ∷ s.calls }

module _ (bus : Bus) where
  unfoldable pub setup_dbus : Server → Bool × Server
  setup_dbus s =
      let id = bus.owns s.calls in
      (not (id == 0), record (call (own_name id) s) { owned_name_id = id })

  unfoldable pub initialize : Server → Bool × Server
  unfolding setup_dbus
  initialize s = setup_dbus s

  unfoldable pub set_adapter_property : Text → Value → Server → Bool × Server
  set_adapter_property property v s =
      if s.connected
      then (bus.sets s.calls property v, call (set_property property v) s)
      else (false, s)

  -- `none` is `false`, with the caller's pointer left as it was.
  unfoldable pub get_adapter_property : Text → Server → Option Variant × Server
  get_adapter_property property s =
      if s.connected then (bus.gets s.calls property, call (get_property property) s) else (none, s)

  unfoldable pub register_gatt_application : Server → Bool × Server
  register_gatt_application s =
      if s.connected then (bus.registers s.calls, call register_application s) else (false, s)

  unfoldable pub start : Server → Server
  unfolding set_adapter_property register_gatt_application
  start s =
      if s.connected
      then (let s1 = (set_adapter_property (codes "Powered") (boolean s.enable_bredr) s).1 in
          let s2 =
            (set_adapter_property (codes "Discoverable") (boolean s1.enable_discoverable) s1).1 in
          let s3 = (set_adapter_property (codes "Pairable") (boolean s2.enable_bondable) s2).1 in
          if s3.enable_advertising then (register_gatt_application s3).1 else s3)
      else s

-- The three parts of `cleanupDBus`.
unfoldable pub release_object : Server → Server
release_object s =
    if ltb 0 s.registered_object_id
    then record (call (unregister_object s.registered_object_id) s) { registered_object_id = 0 }
    else s

unfoldable pub release_name : Server → Server
release_name s =
    if ltb 0 s.owned_name_id
    then record (call (unown_name s.owned_name_id) s) { owned_name_id = 0 }
    else s

unfoldable pub release_connection : Server → Server
release_connection s =
    if s.connected then record (call unref_connection s) { connected = false } else s

unfoldable pub cleanup_dbus : Server → Server
unfolding release_object release_name release_connection
cleanup_dbus s = release_connection (release_name (release_object s))

unfoldable pub stop : Server → Server
unfolding cleanup_dbus
stop s = cleanup_dbus (call unregister_application s)

-- GLib calls it once the bus is there.
unfoldable pub on_bus_acquired : Server → Server
on_bus_acquired s = record (call ref_connection s) { connected = true }

-- The look-ups go over the objects, whose own members are a parameter.
module _ {O I : Type 0} (find : O → Option I) where
  unfoldable pub find_interface : List O → Option I
  find_interface [] = none
  find_interface (o ∷ objects) =
      let rest = find_interface objects in elim (find o) [ none ↦ rest | some i ↦ some i ]

  -- A null pointer whether or not the interface is found.
  unfoldable pub find_property : {P : Type 0} → List O → Option P
  unfolding find_interface
  find_property objects = elim (find_interface objects) [ none ↦ none | some i ↦ none ]

module _ {O S : Type 0} (answers : O → S → Bool × S) where
  unfoldable pub call_method : List O → S → Bool × S
  call_method [] s = (false, s)
  call_method (o ∷ objects) s =
      let (answered, s1) = answers o s in
      let rest = call_method objects s1 in if answered then (true, s1) else rest
