-- ===== src/Gatt/Characteristic/Replies.antt =====
-- What becomes of the invocation of a method of a characteristic.
use bluetooth_le.Prelude.{
  ℕ, suc, ◌≡◌, refl, ap, ◌∙◌, Bool, true, false, not, ◌||◌, ◌∷◌, if◌then◌else◌, List, Option, none,
  some, Text, arith,
}
use bluetooth_le.Gio.{
  Value, Variant, Event, Environment, Outcome, returns, throws, bytes, read_callback,
}
use bluetooth_le.Gio.Replies.{counted, returned, replies}
use bluetooth_le.DBusTypes.{DBusMethodCall}
use bluetooth_le.Connection.{DBusConnection}
use bluetooth_le.DBusObject.{emit_property_changed}
use bluetooth_le.Gatt.Records.{GattCharacteristic, Object}
use bluetooth_le.Gatt.Characteristic.{
  call_notify, start_notify, stop_notify, reply_read, ask_write, answer_write, write_parameters,
  handle_read_value, handle_write_value, handle_start_notify, handle_stop_notify,
  string_from_byte_array,
}

pub counted-emit :
    (env : Environment) (any : Bool) (i : ℕ) (interface name : Text) (v : Value) (o : Object)
    (c : DBusConnection)
    → counted any i (emit_property_changed env interface name v o c).1.history
      ≡ counted any i c.history
unfolding emit_property_changed
counted-emit env any i interface name v o c = ground arith

pub counted-call_notify :
    (any : Bool) (i : ℕ) (ch : GattCharacteristic) (c : DBusConnection)
    → counted any i (call_notify ch c).history ≡ counted any i c.history
unfolding call_notify
counted-call_notify any i ch c = ground arith

module _ (env : Environment) (any : Bool) (i : ℕ) (ch : GattCharacteristic)
    (c : DBusConnection) where
  pub counted-start_notify :
      counted any i (start_notify env ch c).2.history ≡ counted any i c.history
  unfolding start_notify
  counted-start_notify = ground arith

  pub counted-stop_notify : counted any i (stop_notify env ch c).2.history ≡ counted any i c.history
  unfolding stop_notify
  counted-stop_notify = ground arith

-- What a read gives: the callback's answer, or else the value.
unfoldable pub read_result : Option (List Event → Outcome Text) → Text → List Event → Outcome Text
read_result none stored h = returns stored
read_result (some f) stored h = f (read_callback ∷ h)

-- There are bytes to reply, and a value for them.
unfoldable pub gives_bytes : Environment → Outcome Text → Bool
gives_bytes env (returns b) = env.builds (bytes b)
gives_bytes env (throws what) = false

-- The bytes are handed back as they are, which is no reply.
pub counted-reply_read :
    (env : Environment) (any : Bool) (i : ℕ) (f : Option (List Event → Outcome Text)) (b : Text)
    (c : DBusConnection)
    → counted any i (reply_read env i f b c).history ≡ (
        if not (gives_bytes env (read_result f b c.history)) || any
        then suc (counted any i c.history)
        else counted any i c.history)
unfolding reply_read gives_bytes read_result
counted-reply_read env any i none b c = ground arith
counted-reply_read env any i (some f) b c = ground arith

pub counted-ask_write :
    (env : Environment) (any : Bool) (i : ℕ) (f : Option (Text → List Event → Outcome Bool))
    (b : Text) (c : DBusConnection)
    → counted any i (ask_write env f b c).1.history ≡ counted any i c.history
unfolding ask_write
counted-ask_write env any i none b c = refl
counted-ask_write env any i (some f) b c = refl

pub counted-answer_write :
    {A : Type 0} (env : Environment) (any : Bool) (i : ℕ) (r : Outcome Bool × DBusConnection)
    (store : DBusConnection → A × DBusConnection) (a : A)
    → ((c1 : DBusConnection) → counted any i (store c1).1.history ≡ counted any i c1.history)
    → counted any i (answer_write env i r store a).1.history ≡ suc (counted any i r.1.history)
unfolding answer_write
counted-answer_write env any i (throws what, c) store a h = ground arith
counted-answer_write env any i (returns false, c) store a h = ground arith
counted-answer_write env any i (returns true, c) store a h = ground (arith, h c)

counted-write_parameters :
    (env : Environment) (any : Bool) (i : ℕ) (v : Option Variant) (ch : GattCharacteristic)
    (c : DBusConnection)
    → counted any i (write_parameters env i v ch c).1.history ≡ suc (counted any i c.history)
unfolding write_parameters
counted-write_parameters env any i none ch c = ground arith
counted-write_parameters env any i (some v) ch c =
    let new = string_from_byte_array env v in
    counted-answer_write env any i (ask_write env ch.write_callback new c)
      (λ c1. (record ch { value = new }, c1)) ch (λ c1. refl)
    ∙ ap suc (counted-ask_write env any i ch.write_callback new c)

module _ (env : Environment) (any : Bool) (m : DBusMethodCall) (i : ℕ)
    (e : m.invocation ≡ some i) where
  pub read_counted :
      (ch : GattCharacteristic) (c : DBusConnection)
      → counted any i (handle_read_value env m ch c).history ≡ (
          if not (gives_bytes env (read_result ch.read_callback ch.value c.history)) || any
          then suc (counted any i c.history)
          else counted any i c.history)
  unfolding handle_read_value
  read_counted ch c =
      rw (e, handle_read_value) (counted-reply_read env any i ch.read_callback ch.value c)

  pub write_counted :
      (ch : GattCharacteristic) (c : DBusConnection)
      → counted any i (handle_write_value env m ch c).1.history ≡ suc (counted any i c.history)
  unfolding handle_write_value
  write_counted ch c =
      rw (e, handle_write_value) (counted-write_parameters env any i m.parameters ch c)

  pub start_counted :
      (ch : GattCharacteristic) (c : DBusConnection)
      → counted any i (handle_start_notify env m ch c).1.history ≡ suc (counted any i c.history)
  unfolding handle_start_notify
  start_counted ch c =
      rw (e, handle_start_notify) (ground (arith, counted-start_notify env any i ch c))

  pub stop_counted :
      (ch : GattCharacteristic) (c : DBusConnection)
      → counted any i (handle_stop_notify env m ch c).1.history ≡ suc (counted any i c.history)
  unfolding handle_stop_notify
  stop_counted ch c =
      rw (e, handle_stop_notify) (ground (arith, counted-stop_notify env any i ch c))

-- The invocation is handed back once more, and replied to once more if `sent` says so.
abbrev pub Hands : ℕ → Bool → DBusConnection → DBusConnection → Type 0
Hands i sent c c' =
    (returned i c'.history ≡ suc (returned i c.history))
    × (replies i c'.history ≡ (if sent then suc (replies i c.history) else replies i c.history))
