-- ===== src/DBusObject/Tests.antt =====
-- A property that can be read and written, asked for in the process and over the bus.
use bluetooth_le.Prelude.{refl, ◌≡◌, Bool, true, false, not, [], ◌∷◌, Option, some, codes}
use bluetooth_le.Gio.Sample.{bus}
use bluetooth_le.Gio.{Value, Variant, boolean}
use bluetooth_le.DBusTypes.{DBusProperty}
use bluetooth_le.DBusObject.{DBusObject, add_method}
use bluetooth_le.DBusObject.Lookup.{handler_data}
use bluetooth_le.DBusObject.Frozen.{here, next, method_added, Run-keeps}

abbrev switch : DBusProperty (Unit {0}) (Unit {0})
switch = record {
  name = codes "On";
  signature = codes "b";
  readable = true;
  writable = true;
  emits_changed_signal = false;
  getter = some tt;
  setter = some tt;
}

abbrev pub lamp : DBusObject (Unit {0}) (Unit {0}) (Unit {0})
lamp = record {
  path = record { path = codes "/lamp" };
  registered = true;
  interfaces = (codes "org.Lamp", switch ∷ []) ∷ [];
  method_handlers = [];
}

abbrev get_on : Unit {0} → Bool → Option Value
get_on g on = some (boolean on)

abbrev toggle : Unit {0} → Variant → Bool → Bool × Bool
toggle f v on = (true, not on)

abbrev bulb : DBusObject (Unit {0}) (Unit {0}) (Unit {0})
bulb = record lamp { registered = false }

Run-keeps_example :
    handler_data (add_method (codes "org.Lamp") (codes "Toggle") tt lamp).1 ≡ handler_data lamp
Run-keeps_example =
    Run-keeps {env = bus} {o = lamp}
      (next here refl (method_added (codes "org.Lamp") (codes "Toggle") tt refl))
