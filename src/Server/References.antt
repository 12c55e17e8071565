-- ===== src/Server/References.antt =====
-- What the server takes from GLib and gives back.
use bluetooth_le.Prelude.{
  ℕ, suc, ◌+◌, ◌≡◌, refl, subst, Bool, false, List, [], ◌∷◌, ltb, if◌then◌else◌, arith,
}
use bluetooth_le.Server.{
  BusCall, own_name, unown_name, ref_connection, unref_connection, Bus, Server, new_server,
  setup_dbus, initialize, set_adapter_property, register_gatt_application, start, release_object,
  release_name, release_connection, cleanup_dbus, stop, on_bus_acquired,
}

pub data Operation : Type 0 where
  initializes acquires_bus starts stops : Operation

-- How often the calls take and give back a reference of the connection, and a name of the bus.
unfoldable pub refs : List BusCall → ℕ
refs [] = 0
refs (ref_connection ∷ l) = suc (refs l)
refs (_ ∷ l) = refs l

unfoldable pub unrefs : List BusCall → ℕ
unrefs [] = 0
unrefs (unref_connection ∷ l) = suc (unrefs l)
unrefs (_ ∷ l) = unrefs l

unfoldable pub owned : List BusCall → ℕ
owned [] = 0
owned (own_name id ∷ l) = let rest = owned l in if ltb 0 id then suc rest else rest
owned (_ ∷ l) = owned l

unfoldable pub unowned : List BusCall → ℕ
unowned [] = 0
unowned (unown_name id ∷ l) = suc (unowned l)
unowned (_ ∷ l) = unowned l

abbrev pub count : Bool → ℕ
count b = if b then 1 else 0

module _ (bus : Bus) where
  unfoldable pub operate : Operation → Server → Server
  unfolding initialize start stop on_bus_acquired
  operate initializes s = (initialize bus s).1
  operate acquires_bus s = on_bus_acquired s
  operate starts s = start bus s
  operate stops s = stop s

  unfoldable pub operate_all : List Operation → Server → Server
  unfolding operate
  operate_all [] s = s
  operate_all (op ∷ ops) s = operate_all ops (operate op s)

  -- The references that are overwritten while they are held: the bus comes while there is a connection.
  unfoldable pub lost_refs : List Operation → Server → ℕ
  unfolding operate
  lost_refs [] s = 0
  lost_refs (acquires_bus ∷ ops) s = count s.connected + lost_refs ops (operate acquires_bus s)
  lost_refs (op ∷ ops) s = lost_refs ops (operate op s)

  -- The names that are overwritten while they are owned: `initialize` is called once more.
  unfoldable pub lost_names : List Operation → Server → ℕ
  unfolding operate
  lost_names [] s = 0
  lost_names (initializes ∷ ops) s =
      count (ltb 0 s.owned_name_id) + lost_names ops (operate initializes s)
  lost_names (op ∷ ops) s = lost_names ops (operate op s)

  -- What is held, with `k` references and `m` names lost before.
  record Balance (k m : ℕ) (s : Server) : Type 0 where
    references : refs s.calls ≡ unrefs s.calls + count s.connected + k
    names : owned s.calls ≡ unowned s.calls + count (ltb 0 s.owned_name_id) + m

  shifted : {k k' m m' : ℕ} {s : Server} → Balance k m s → k ≡ k' → m ≡ m' → Balance k' m' s
  shifted {k} {k'} {m} {m'} {s} b ek em =
      subst (λ x. Balance k' x s) em (subst (λ x. Balance x m s) ek b)

  initialize-Balance :
      (k m : ℕ) (s : Server)
      → Balance k m s
      → Balance k (m + count (ltb 0 s.owned_name_id)) (operate initializes s)
  unfolding operate initialize setup_dbus refs unrefs owned unowned
  initialize-Balance k m s b = record { references = b.references; names = ground (arith, b.names) }

  acquire-Balance :
      (k m : ℕ) (s : Server)
      → Balance k m s
      → Balance (k + count s.connected) m (operate acquires_bus s)
  unfolding operate on_bus_acquired refs unrefs owned unowned
  acquire-Balance k m s b = record { references = ground (arith, b.references); names = b.names }

  start-Balance : (k m : ℕ) (s : Server) → Balance k m s → Balance k m (operate starts s)
  unfolding operate start set_adapter_property register_gatt_application refs unrefs owned unowned
  start-Balance k m s b = record {
    references = ground (arith, b.references);
    names = ground (arith, b.names);
  }

  stop-Balance : (k m : ℕ) (s : Server) → Balance k m s → Balance k m (operate stops s)
  unfolding operate stop cleanup_dbus release_object release_name release_connection refs unrefs
      owned unowned
  stop-Balance k m s b = record {
    references = ground (arith, b.references);
    names = ground (arith, b.names);
  }

  operate_all-Balance :
      (ops : List Operation) (k m : ℕ) (s : Server)
      → Balance k m s
      → Balance (k + lost_refs ops s) (m + lost_names ops s) (operate_all ops s)
  unfolding operate_all lost_refs lost_names
  operate_all-Balance [] k m s b = record {
    references = ground (arith, b.references);
    names = ground (arith, b.names);
  }
  operate_all-Balance (initializes ∷ ops) k m s b =
      shifted
        (operate_all-Balance ops k (m + count (ltb 0 s.owned_name_id)) (operate initializes s)
          (initialize-Balance k m s b))
        refl (omega arith)
  operate_all-Balance (acquires_bus ∷ ops) k m s b =
      shifted
        (operate_all-Balance ops (k + count s.connected) m (operate acquires_bus s)
          (acquire-Balance k m s b))
        (omega arith) refl
  operate_all-Balance (starts ∷ ops) k m s b =
      operate_all-Balance ops k m (operate starts s) (start-Balance k m s b)
  operate_all-Balance (stops ∷ ops) k m s b =
      operate_all-Balance ops k m (operate stops s) (stop-Balance k m s b)

  new_server-Balance : Balance 0 0 new_server
  unfolding refs unrefs owned unowned
  new_server-Balance = record { references = omega arith; names = omega arith }

  stop_empty :
      (s : Server)
      → ((stop s).connected ≡ false)
        × ((stop s).owned_name_id ≡ 0)
        × ((stop s).registered_object_id ≡ 0)
  unfolding stop cleanup_dbus release_object release_name release_connection
  stop_empty s = (ground arith, ground arith, ground arith)

  -- Nothing is held, so what was taken is given back or lost.
  balanced :
      (k m : ℕ) (s : Server)
      → Balance (0 + k) (0 + m) s
      → s.connected ≡ false
      → s.owned_name_id ≡ 0
      → (refs s.calls ≡ unrefs s.calls + k) × (owned s.calls ≡ unowned s.calls + m)
  balanced k m s b free unnamed = (ground (arith, b.references), ground (arith, b.names))

  -- Whatever a new server is asked to do, once it is stopped it holds nothing: it has no connection and
  -- no number of a name, and it has given back every reference of a connection and every name of the
  -- bus that it took, but for those overwritten while they were held. Those are the references of a bus
  -- that came while there was a connection, and the names owned by one more `initialize`.
  pub operate_all-stop :
      (ops : List Operation)
      → let s = stop (operate_all ops new_server) in
        (s.connected ≡ false)
        × (s.owned_name_id ≡ 0)
        × (s.registered_object_id ≡ 0)
        × (refs s.calls ≡ unrefs s.calls + lost_refs ops new_server)
        × (owned s.calls ≡ unowned s.calls + lost_names ops new_server)
  unfolding operate
  operate_all-stop ops =
      let s0 = operate_all ops new_server in
      let b = operate_all-Balance ops 0 0 new_server new_server-Balance in
      let c = stop-Balance (0 + lost_refs ops new_server) (0 + lost_names ops new_server) s0 b in
      let (free, unnamed, unregistered) = stop_empty s0 in
      let (references, names) =
        balanced (lost_refs ops new_server) (lost_names ops new_server) (stop s0) c free unnamed in
      (free, unnamed, unregistered, references, names)
