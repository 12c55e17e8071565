-- ===== src/Gatt/Descriptor/Configuration.antt =====
-- The client's configuration descriptor: what its value does to its characteristic.
use bluetooth_le.Prelude.{
  ℕ, ◌≡◌, refl, Bool, true, false, ◌||◌, ◌∷◌, Option, some, Text, arith, ◌==◌, Bool-cases,
  Option-cases, inl, inr,
}
use bluetooth_le.Print.{c_str}
use bluetooth_le.Gio.{Value, Variant, Environment, Outcome, returns, throws}
use bluetooth_le.DBusTypes.{DBusMethodCall}
use bluetooth_le.Connection.{DBusConnection}
use bluetooth_le.Gatt.Records.{GattCharacteristic, GattDescriptor}
use bluetooth_le.Gatt.Flags.{has}
use bluetooth_le.Gatt.Characteristic.{
  start_notify, stop_notify, string_from_byte_array, ask_write, answer_write,
}
use bluetooth_le.Gatt.Characteristic.Notify.{supports}
use bluetooth_le.Gatt.Descriptor.{
  is_configuration, configure, set_value, write_parameters, handle_write_value,
}

-- The two bits of the first byte that ask for notifications and for indications.
abbrev pub asks : ℕ → Bool
asks b0 = has b0 0x01 || has b0 0x02

module _ (env : Environment) (ch : GattCharacteristic) (c : DBusConnection) where
  starts :
      supports ch ≡ true
      → env.builds (Value.boolean true) ≡ true
      → (start_notify env ch c).1.notifying ≡ true
  unfolding start_notify
  starts s h = ground arith

  stops : env.builds (Value.boolean false) ≡ true → (stop_notify env ch c).1.notifying ≡ false
  unfolding stop_notify
  stops h = ground arith

-- Setting the value of a configuration descriptor to two bytes or more makes its characteristic
-- notify exactly if one of the two lowest bits of the first byte is set, where the characteristic
-- supports it and values can be built.
pub set_value-configures :
    (env : Environment) (b0 b1 : ℕ) (rest : Text) (d : GattDescriptor) (ch : GattCharacteristic)
    (c : DBusConnection)
    → is_configuration d.uuid ≡ true
    → supports ch ≡ true
    → ((b : Bool) → env.builds (Value.boolean b) ≡ true)
    → (set_value env (b0 ∷ b1 ∷ rest) d ch c).0.1.notifying ≡ asks b0
unfolding set_value configure
set_value-configures env b0 b1 rest d ch c u s h = elim (Bool-cases (asks b0)) [
  | inl e ↦ rw (u, e) (starts env ch c s (h true))
  | inr e ↦ rw (u, e) (stops env ch c (h false))
]

set_value_cut :
    (env : Environment) (b0 : ℕ) (rest : Text) (d : GattDescriptor) (ch : GattCharacteristic)
    (c : DBusConnection)
    → (set_value env (c_str (b0 ∷ 0 ∷ rest)) d ch c).0.1 ≡ ch
unfolding set_value c_str
set_value_cut env b0 rest d ch c = elim (Bool-cases (b0 == 0)) [
  | inl e ↦ rw e (ground arith)
  | inr e ↦ rw e (ground arith)
]

answer_write-keeps :
    (env : Environment) (i : ℕ) (r : Outcome Bool × DBusConnection)
    (store : DBusConnection → (GattDescriptor × GattCharacteristic) × DBusConnection)
    (d : GattDescriptor) (ch : GattCharacteristic)
    → ((c : DBusConnection) → (store c).0.1 ≡ ch)
    → (answer_write env i r store (d, ch)).0.1 ≡ ch
unfolding answer_write
answer_write-keeps env i (throws what, c) store d ch h = refl
answer_write-keeps env i (returns false, c) store d ch h = refl
answer_write-keeps env i (returns true, c) store d ch h = h c

write_parameters-keeps :
    (env : Environment) (i : ℕ) (p : Option Variant) {v : Variant} (b0 : ℕ) (rest : Text)
    (d : GattDescriptor) (ch : GattCharacteristic) (c : DBusConnection)
    → p ≡ some v
    → env.fixed_array v ≡ b0 ∷ 0 ∷ rest
    → (write_parameters env i p d ch c).0.1 ≡ ch
unfolding write_parameters string_from_byte_array
write_parameters-keeps env i p {v} b0 rest d ch c e f =
    rw (e, write_parameters)
      (answer_write-keeps env i (ask_write env d.write_callback (string_from_byte_array env v) c)
        (set_value env (string_from_byte_array env v) d ch) d ch
        (λ c1. rw f (set_value_cut env b0 rest d ch c1)))

-- A write over the bus of two bytes or more whose second byte is zero never changes the
-- characteristic, whatever the first byte asks for. Every value that the Bluetooth specification
-- gives the configuration has a zero there.
pub write-ignored :
    (env : Environment) (m : DBusMethodCall) (v : Variant) (b0 : ℕ) (rest : Text)
    (d : GattDescriptor) (ch : GattCharacteristic) (c : DBusConnection)
    → m.parameters ≡ some v
    → env.fixed_array v ≡ b0 ∷ 0 ∷ rest
    → (handle_write_value env m d ch c).0.1 ≡ ch
unfolding handle_write_value
write-ignored env m v b0 rest d ch c e f = elim (Option-cases m.invocation) [
  | inl n ↦ rw (n, handle_write_value) refl
  | inr (i, n) ↦
      rw (n, handle_write_value) (write_parameters-keeps env i m.parameters b0 rest d ch c e f)
]
