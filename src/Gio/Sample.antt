-- ===== src/Gio/Sample.antt =====
-- An environment for examples: the bus is there, and every call succeeds.
use bluetooth_le.Prelude.{suc, true, false, [], ◌∷◌, some, Text, codes, length}
use bluetooth_le.Gio.{Value, Variant, Environment, bytes, boolean, value, properties_changed}

abbrev bytes_of : Value → Text
bytes_of (bytes b) = b
bytes_of _ = []

abbrev fixed_array : Variant → Text
fixed_array (value v) = bytes_of v
fixed_array _ = []

abbrev pub bus : Environment
bus = record {
  gives_bus = λ h. true;
  closed = λ h. false;
  reply = λ h e. some (value (boolean true));
  emits = λ h e. true;
  parses = λ t. some (codes "org.example.One" ∷ codes "org.example.Two" ∷ []);
  registers = λ h path interface. suc (length h);
  unregisters = λ h id. true;
  subscribes = λ h e. suc (length h);
  builds = λ v. true;
  property_parameters = λ interface name v. some (properties_changed interface name v);
  fixed_array = fixed_array;
}
