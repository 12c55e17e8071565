-- ===== src/Gatt/Characteristic/Writes.antt =====
-- What a write over the bus does to the value of a characteristic.
use bluetooth_le.Prelude.{
  ℕ, ◌≡◌, ◌↔◌, ◌⊎◌, refl, Bool, true, false, ◌∷◌, Option, none, some, Text, Lacks, inl, inr,
}
use bluetooth_le.Print.{c_str}
use bluetooth_le.Print.CString.{c_str-eq_iff}
use bluetooth_le.Gio.{
  Variant, ErrorCode, History, Environment, Outcome, returns, throws, return_value, return_error,
}
use bluetooth_le.DBusTypes.{DBusMethodCall}
use bluetooth_le.Connection.{DBusConnection}
use bluetooth_le.Gatt.Records.{GattCharacteristic}
use bluetooth_le.Gatt.Characteristic.{
  answer_write, ask_write, write_parameters, handle_write_value, string_from_byte_array,
}

-- The answer sent last is the empty one, or an error, to the invocation.
abbrev pub Accepted : ℕ → DBusConnection → Type 0
Accepted i c = (h : History) × (c.history ≡ return_value i none ∷ h)

abbrev pub Refused : ℕ → DBusConnection → Type 0
Refused i c =
    (h : History) × (code : ErrorCode) × (message : Text) × (c.history
      ≡ return_error i code message ∷ h)

answer_write_cases :
    (env : Environment) (i : ℕ) (r : Outcome Bool × DBusConnection) (new ch : GattCharacteristic)
    → let (ch', c') = answer_write env i r (λ c1. (new, c1)) ch in
      ((ch' ≡ new) × Accepted i c') ⊎ ((ch' ≡ ch) × Refused i c')
unfolding answer_write
answer_write_cases env i (throws what, c) new ch = inr (refl, (_, _, _, refl))
answer_write_cases env i (returns false, c) new ch = inr (refl, (_, _, _, refl))
answer_write_cases env i (returns true, c) new ch = inl (refl, (_, refl))

write_parameters_cases :
    (env : Environment) (i : ℕ) (v : Option Variant) (ch : GattCharacteristic) (c : DBusConnection)
    → let (ch', c') = write_parameters env i v ch c in
      ((u : Variant) × (v ≡ some u)
        × (ch' ≡ record ch { value = string_from_byte_array env u })
        × Accepted i c')
      ⊎ ((ch' ≡ ch) × Refused i c')
unfolding write_parameters
write_parameters_cases env i none ch c = inr (refl, (_, _, _, refl))
write_parameters_cases env i (some u) ch c =
    let new = string_from_byte_array env u in
    elim (answer_write_cases env i (ask_write env ch.write_callback new c)
      (record ch { value = new }) ch) [ inl (e, a) ↦ inl (u, refl, e, a) | inr r ↦ inr r ]

-- A write over the bus either stores the bytes that were sent, up to the first NUL, changes nothing
-- else of the characteristic and sends the empty answer; or it leaves the characteristic as it was
-- and sends an error.
pub write_cases :
    (env : Environment) (m : DBusMethodCall) (i : ℕ) (ch : GattCharacteristic) (c : DBusConnection)
    → m.invocation ≡ some i
    → let (ch', c') = handle_write_value env m ch c in
      ((v : Variant) × (m.parameters ≡ some v)
        × (ch' ≡ record ch { value = c_str (env.fixed_array v) })
        × Accepted i c')
      ⊎ ((ch' ≡ ch) × Refused i c')
unfolding handle_write_value
write_cases env m i ch c e =
    rw (e, handle_write_value) (write_parameters_cases env i m.parameters ch c)

plain_write :
    (env : Environment) (m : DBusMethodCall) (i : ℕ) (v : Variant) (ch : GattCharacteristic)
    (c : DBusConnection)
    → m.invocation ≡ some i
    → m.parameters ≡ some v
    → ch.write_callback ≡ none
    → handle_write_value env m ch c ≡ (
      record ch { value = c_str (env.fixed_array v) },
      record c { history = return_value i none ∷ c.history },
    )
unfolding handle_write_value string_from_byte_array
plain_write env m i v ch c e p w = rw (e, p, w, handle_write_value, ask_write) refl

-- Without a write callback every write is accepted, and the bytes that were sent are those stored
-- exactly if none of them is zero.
pub write_exact :
    (env : Environment) (m : DBusMethodCall) (i : ℕ) (v : Variant) (ch : GattCharacteristic)
    (c : DBusConnection)
    → m.invocation ≡ some i
    → m.parameters ≡ some v
    → ch.write_callback ≡ none
    → let (ch', c') = handle_write_value env m ch c in
      Accepted i c' × ((ch'.value ≡ env.fixed_array v) ↔ Lacks 0 (env.fixed_array v))
write_exact env m i v ch c e p w =
    rw (plain_write env m i v ch c e p w) ((_, refl), c_str-eq_iff (env.fixed_array v))
