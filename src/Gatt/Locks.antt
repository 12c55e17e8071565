-- ===== src/Gatt/Locks.antt =====
-- src/GattCharacteristic.cpp, src/GattDescriptor.cpp and the functions in their headers, with the
-- mutexes they lock and unlock: each function as a program over the state that threads share, a
-- characteristic, one descriptor of it and the connection. A call of a callback, of GLib or of the
-- connection is one step, and a callback does not call back.
pub mod Descriptors
pub mod Fields
pub mod Operations
pub mod Sequential
pub mod Order
pub mod Freedom
pub mod Notifying
pub mod Deadlock
pub mod Tests
use bluetooth_le.Prelude.{
  ℕ, Bool, true, false, not, ◌&&◌, ◌||◌, List, [], ◌∷◌, Option, none, some, Text, codes,
  if◌then◌else◌, Dict,
}
use bluetooth_le.Gio.{
  Value, Variant, Environment, Outcome, returns, throws, boolean, string_array, bytes, return_value,
  return_error, read_callback, write_callback, failed, invalid_args, not_supported, build,
}
use bluetooth_le.DBusTypes.{DBusMethodCall}
use bluetooth_le.Connection.{DBusConnection, call}
use bluetooth_le.Threads.{Program, return, ◌>>=◌, ◌>>◌, guarded, get, modify, change}
use bluetooth_le.Gatt.Records.{
  GattCharacteristic, GattDescriptor, ReadCallback, WriteCallback, NotifyCallback,
}
use bluetooth_le.Gatt.Create
use bluetooth_le.Gatt.Create.{lookup, cleaned}
use bluetooth_le.Uuid.{GattUuid}
use bluetooth_le.Gatt.Flags.{has, prop_notify, prop_indicate}
use bluetooth_le.Gatt.Characteristic.{
  call_notify, changed, reply_bytes, string_from_byte_array, descriptor_paths,
}

pub record Shared : Type 0 where
  pub descriptor : GattDescriptor
  pub characteristic : GattCharacteristic
  pub connection : DBusConnection

-- `valueMutex`, `notifyMutex`, `descriptorsMutex` and `callbackMutex` of the characteristic,
-- `valueMutex` and `callbackMutex` of the descriptor.
abbrev pub value_mutex : ℕ
value_mutex = 0

abbrev pub notify_mutex : ℕ
notify_mutex = 1

abbrev pub descriptors_mutex : ℕ
descriptors_mutex = 2

abbrev pub callback_mutex : ℕ
callback_mutex = 3

abbrev pub descriptor_callback_mutex : ℕ
descriptor_callback_mutex = 4

abbrev pub descriptor_value_mutex : ℕ
descriptor_value_mutex = 5

abbrev pub Code : Type 0 → Type 0
Code A = Program Shared A

-- A field of the characteristic is read or written; a call is made.
abbrev pub read_field : {A : Type 0} → (GattCharacteristic → A) → Code A
read_field f = get (λ s. f s.characteristic)

abbrev pub write_field : (GattCharacteristic → GattCharacteristic) → Code (Unit {0})
write_field f = modify (λ s. record s { characteristic = f s.characteristic })

abbrev pub ask : (GattCharacteristic → DBusConnection → DBusConnection) → Code (Unit {0})
ask f = modify (λ s. record s { connection = f s.characteristic s.connection })

abbrev pub answer : (DBusConnection → DBusConnection) → Code (Unit {0})
answer f = ask (λ _. f)

module _ (env : Environment) where
  -- The end of `setValue` once the value is built.
  unfoldable pub announce_value : Option Value → Code (Unit {0})
  announce_value none = return tt
  announce_value (some v) = do
    notifying ← guarded notify_mutex (read_field (λ ch. ch.notifying))
    if notifying then guarded callback_mutex (ask call_notify) else return tt
    ask (changed env (codes "Value") v)

  unfoldable pub set_value : Text → Code (Unit {0})
  set_value new = guarded value_mutex (do
    write_field (λ ch. record ch { value = new })
    registered ← read_field (λ ch. ch.object.registered)
    (if registered
        then read_field (λ ch. build env (bytes ch.value)) >>= announce_value
        else return tt))

  -- `startNotify` and `stopNotify` behind their first tests. `false` is a failure to build the value,
  -- where the state is put back.
  unfoldable pub announce_notifying : Bool → Option Value → Code Bool
  announce_notifying b none = write_field (λ ch. record ch { notifying = not b }) >> return false
  announce_notifying b (some v) = ask (changed env (codes "Notifying") v) >> return true

  unfoldable pub announce : Bool → Code Bool
  announce b = do
    write_field (λ ch. record ch { notifying = b })
    registered ← read_field (λ ch. ch.object.registered)
    (if registered
        then read_field (λ ch. build env (boolean b)) >>= announce_notifying b
        else return true)

  -- The call at the end of `startNotify`, where the mutex of the notifications is still held.
  unfoldable pub started : Bool → Code Bool
  started false = return false
  started true = guarded callback_mutex (ask call_notify) >> return true

  unfoldable pub start_notify : Code Bool
  start_notify = guarded notify_mutex (do
    notifying ← read_field (λ ch. ch.notifying)
    properties ← read_field (λ ch. ch.properties)
    (if notifying
        then return true
        else if not (has properties prop_notify) && not (has properties prop_indicate)
        then return false
        else announce true >>= started))

  unfoldable pub stop_notify : Code Bool
  stop_notify = guarded notify_mutex (do
    notifying ← read_field (λ ch. ch.notifying)
    if notifying then announce false else return true)

  -- A callback answers or throws; the error is returned while its mutex is still held. `none` ends
  -- the handler.
  pub called : {A : Type 0} → ℕ → Outcome A → Code (Option A)
  called i (returns a) = return (some a)
  called i (throws what) = answer (call (return_error i failed what)) >> return none

  pub call_read : ℕ → ReadCallback → Code (Option Text)
  call_read i f =
      change
        (λ s. let c = call read_callback s.connection in (f c.history, record s { connection = c }))
      >>= called i

  unfoldable pub ask_read : ℕ → Option ReadCallback → Code (Option Text)
  ask_read i none = guarded value_mutex (read_field (λ ch. some ch.value))
  ask_read i (some f) = call_read i f

  pub reply_read : ℕ → Option Text → Code (Unit {0})
  reply_read i none = return tt
  reply_read i (some b) = answer (reply_bytes env i b)

  unfoldable pub handle_read_value : DBusMethodCall → Code (Unit {0})
  handle_read_value m = elim m.invocation [
    | none ↦ return tt
    | some i ↦
        guarded callback_mutex (read_field (λ ch. ch.read_callback) >>= ask_read i) >>= reply_read i
  ]

  pub ask_write : ℕ → Text → Option WriteCallback → Code (Option Bool)
  ask_write i new none = return (some true)
  ask_write i new (some f) =
      change (λ s.
        let c = call (write_callback new) s.connection in
        (f new c.history, record s { connection = c }))
      >>= called i

  -- The reply to `WriteValue`; `store` is how the object keeps the value.
  pub reply_write : ℕ → Code (Unit {0}) → Option Bool → Code (Unit {0})
  reply_write i store none = return tt
  reply_write i store (some false) =
      answer (call (return_error i failed (codes "Write operation failed")))
  reply_write i store (some true) = store >> answer (call (return_value i none))

  unfoldable pub write_parameters : ℕ → Option Variant → Code (Unit {0})
  write_parameters i none = answer (call (return_error i invalid_args (codes "Missing parameters")))
  write_parameters i (some v) =
      let new = string_from_byte_array env v in
      guarded callback_mutex (read_field (λ ch. ch.write_callback) >>= ask_write i new)
      >>= reply_write i (guarded value_mutex (write_field (λ ch. record ch { value = new })))

  unfoldable pub handle_write_value : DBusMethodCall → Code (Unit {0})
  handle_write_value m = elim m.invocation [
    | none ↦ return tt
    | some i ↦ write_parameters i m.parameters
  ]

  unfoldable pub handle_start_notify : DBusMethodCall → Code (Unit {0})
  handle_start_notify m = elim m.invocation [
    | none ↦ return tt
    | some i ↦ start_notify >>= λ ok.
        if ok
        then answer (call (return_value i none))
        else answer (call (return_error i not_supported (codes "Notifications not supported")))
  ]

  unfoldable pub handle_stop_notify : DBusMethodCall → Code (Unit {0})
  handle_stop_notify m = elim m.invocation [
    | none ↦ return tt
    | some i ↦ stop_notify >>= λ ok.
        if ok
        then answer (call (return_value i none))
        else answer (call (return_error i failed (codes "Failed to stop notifications")))
  ]

  unfoldable pub get_notifying_property : Code (Option Value)
  get_notifying_property =
      guarded notify_mutex (read_field (λ ch. build env (boolean ch.notifying)))

  unfoldable pub get_descriptors_property : Code (Option Value)
  get_descriptors_property =
      guarded descriptors_mutex
        (read_field (λ ch. build env (string_array (descriptor_paths ch.descriptors))))
