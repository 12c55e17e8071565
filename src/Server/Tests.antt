-- ===== src/Server/Tests.antt =====
-- The server at concrete operations.
use bluetooth_le.Prelude.{suc, ◌+◌, ◌≡◌, refl, true, false, List, [], ◌∷◌, some, codes, length}
use bluetooth_le.Gio.{boolean, value}
use bluetooth_le.Server.{
  Bus, new_server, stop, set_property, own_name, register_application, ref_connection,
}
use bluetooth_le.Server.References.{
  Operation, initializes, acquires_bus, starts, refs, unrefs, owned, unowned, operate_all,
  lost_refs, lost_names, operate_all-stop,
}

abbrev system_bus : Bus
system_bus = record {
  owns = λ calls. suc (length calls);
  sets = λ calls property v. true;
  gets = λ calls property. some (value (boolean true));
  registers = λ calls. true;
}

-- The bus comes a second time.
abbrev twice : List Operation
twice = initializes ∷ starts ∷ acquires_bus ∷ starts ∷ acquires_bus ∷ []

-- A `start` before the bus has come does nothing, and one after it turns the adapter's power off,
-- since BR/EDR is off.
calls_twice :
    (operate_all system_bus twice new_server).calls
    ≡ ref_connection
      ∷ register_application
      ∷ set_property (codes "Pairable") (boolean true)
      ∷ set_property (codes "Discoverable") (boolean true)
      ∷ set_property (codes "Powered") (boolean false)
      ∷ ref_connection
      ∷ own_name 1
      ∷ []
unfolding operate_all
calls_twice = refl

operate_all-stop_example :
    let s = stop (operate_all system_bus twice new_server) in
    (s.connected ≡ false)
    × (s.owned_name_id ≡ 0)
    × (s.registered_object_id ≡ 0)
    × (refs s.calls ≡ unrefs s.calls + 1)
    × (owned s.calls ≡ unowned s.calls + 0)
unfolding lost_refs lost_names
operate_all-stop_example = operate_all-stop system_bus twice
