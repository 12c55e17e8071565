-- ===== src/Gatt/Locks/Descriptors.antt =====
-- src/GattDescriptor.cpp with its mutexes. `setValue` changes the characteristic with no mutex held,
-- and reads the value a second time behind its lock.
use bluetooth_le.Prelude.{ℕ, ◌||◌, [], ◌∷◌, Option, none, some, Text, codes, if◌then◌else◌}
use bluetooth_le.Gio.{Value, Variant, Environment, bytes, return_error, invalid_args, build}
use bluetooth_le.DBusTypes.{DBusMethodCall}
use bluetooth_le.Connection.{DBusConnection, call}
use bluetooth_le.Threads.{return, ◌>>=◌, ◌>>◌, guarded, get, modify}
use bluetooth_le.Gatt.Records.{
  GattDescriptor, ReadCallback, WriteCallback, gatt_descriptor_interface,
}
use bluetooth_le.DBusObject.{emit_property_changed}
use bluetooth_le.Gatt.Flags.{has}
use bluetooth_le.Gatt.Characteristic.{string_from_byte_array}
use bluetooth_le.Gatt.Descriptor.{is_configuration}
use bluetooth_le.Gatt.Locks.{
  Code, answer, call_read, ask_write, reply_write, reply_read, start_notify, stop_notify,
  descriptor_value_mutex, descriptor_callback_mutex,
}

abbrev pub look : {A : Type 0} → (GattDescriptor → A) → Code A
look f = get (λ s. f s.descriptor)

abbrev pub put : (GattDescriptor → GattDescriptor) → Code (Unit {0})
put f = modify (λ s. record s { descriptor = f s.descriptor })

-- `emitPropertyChanged` of the descriptor
abbrev pub changed : Environment → Value → GattDescriptor → DBusConnection → DBusConnection
changed env v d c =
    (emit_property_changed env gatt_descriptor_interface (codes "Value") v d.object c).1

module _ (env : Environment) where
  unfoldable pub configure : Text → Code (Unit {0})
  configure [] = return tt
  configure (b0 ∷ []) = return tt
  configure (b0 ∷ b1 ∷ rest) =
      if has b0 0x01 || has b0 0x02
      then start_notify env >> return tt
      else stop_notify env >> return tt

  unfoldable pub announce_value : Option Value → Code (Unit {0})
  announce_value none = return tt
  announce_value (some v) =
      modify (λ s. record s { connection = changed env v s.descriptor s.connection })

  unfoldable pub announce : Code (Unit {0})
  announce = do
    registered ← look (λ d. d.object.registered)
    (if registered then look (λ d. build env (bytes d.value)) >>= announce_value else return tt)

  unfoldable pub set_value : Text → Code (Unit {0})
  set_value new = do
    guarded descriptor_value_mutex (put (λ d. record d { value = new }))
    configuration ← look (λ d. is_configuration d.uuid)
    if configuration then configure new else return tt
    announce

  unfoldable pub ask_read : ℕ → Option ReadCallback → Code (Option Text)
  ask_read i none = guarded descriptor_value_mutex (look (λ d. some d.value))
  ask_read i (some f) = call_read env i f

  unfoldable pub handle_read_value : DBusMethodCall → Code (Unit {0})
  handle_read_value m = elim m.invocation [
    | none ↦ return tt
    | some i ↦
        guarded descriptor_callback_mutex (look (λ d. d.read_callback) >>= ask_read i)
        >>= reply_read env i
  ]

  unfoldable pub write_parameters : ℕ → Option Variant → Code (Unit {0})
  write_parameters i none = answer (call (return_error i invalid_args (codes "Missing parameters")))
  write_parameters i (some v) =
      let new = string_from_byte_array env v in
      guarded descriptor_callback_mutex (look (λ d. d.write_callback) >>= ask_write env i new)
      >>= reply_write env i (set_value new)

  unfoldable pub handle_write_value : DBusMethodCall → Code (Unit {0})
  handle_write_value m = elim m.invocation [
    | none ↦ return tt
    | some i ↦ write_parameters i m.parameters
  ]

unfoldable pub get_value : Code Text
get_value = guarded descriptor_value_mutex (look (λ d. d.value))

unfoldable pub set_read_callback : Option ReadCallback → Code (Unit {0})
set_read_callback f = guarded descriptor_callback_mutex (put (λ d. record d { read_callback = f }))

unfoldable pub set_write_callback : Option WriteCallback → Code (Unit {0})
set_write_callback f =
    guarded descriptor_callback_mutex (put (λ d. record d { write_callback = f }))
