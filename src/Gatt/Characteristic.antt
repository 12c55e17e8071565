-- ===== src/Gatt/Characteristic.antt =====
-- src/GattCharacteristic.cpp: the value, notifications, the handlers of calls and the properties of
-- a characteristic. Each function runs to its end here; Gatt/Locks has the mutexes.
pub mod Notify
pub mod Replies
pub mod Writes
use bluetooth_le.Prelude.{
  ℕ, Bool, true, false, not, ◌&&◌, List, [], ◌∷◌, Option, none, some, Text, codes, if◌then◌else◌,
  Dict,
}
use bluetooth_le.Print.{c_str}
use bluetooth_le.ObjectPath.{DBusObjectPath}
use bluetooth_le.Uuid.{to_blue_z_format}
use bluetooth_le.Gio.{
  Value, Variant, Event, Environment, Outcome, returns, throws, string, object_path, boolean,
  string_array, bytes, value, return_value, return_error, read_callback, write_callback,
  notify_callback, failed, invalid_args, not_supported, build,
}
use bluetooth_le.DBusTypes.{DBusMethodCall}
use bluetooth_le.Connection.{DBusConnection, call}
use bluetooth_le.DBusObject.{emit_property_changed}
use bluetooth_le.Gatt.Records.{GattCharacteristic, GattDescriptor, gatt_characteristic_interface}
use bluetooth_le.Gatt.Flags.{has, prop_notify, prop_indicate, characteristic_flags}

-- `notifyCallback()`, whose exceptions are caught and logged.
unfoldable pub call_notify : GattCharacteristic → DBusConnection → DBusConnection
call_notify ch c = elim ch.notify_callback [ none ↦ c | some f ↦ call notify_callback c ]

-- `emitPropertyChanged`, whose result the code does not look at.
abbrev pub changed :
    Environment → Text → Value → GattCharacteristic → DBusConnection → DBusConnection
changed env name v ch c =
    (emit_property_changed env gatt_characteristic_interface name v ch.object c).1

module _ (env : Environment) where
  -- `setValue`; the builder of the value may fail.
  unfoldable pub set_value :
      Text → GattCharacteristic → DBusConnection → GattCharacteristic × DBusConnection
  unfolding call_notify emit_property_changed
  set_value new ch c =
      let ch' = record ch { value = new } in
      if ch.object.registered
      then elim (build env (bytes new)) [
        | none ↦ (ch', c)
        | some v ↦
            (ch', changed env (codes "Value") v ch' (if ch.notifying then call_notify ch' c else c))
      ]
      else (ch', c)

  -- The rest of `startNotify` and of `stopNotify` once the state is to be `b`; `none` is a failure to
  -- build the value, where the state is put back.
  unfoldable pub announce : Bool → GattCharacteristic → DBusConnection → Option DBusConnection
  unfolding emit_property_changed
  announce b ch c =
      if ch.object.registered
      then elim (build env (boolean b)) [
        | none ↦ none
        | some v ↦ some (changed env (codes "Notifying") v ch c)
      ]
      else some c

  unfoldable pub start_notify :
      GattCharacteristic → DBusConnection → Bool × GattCharacteristic × DBusConnection
  unfolding announce call_notify
  start_notify ch c =
      let ch' = record ch { notifying = true } in
      if ch.notifying
      then (true, ch, c)
      else if not (has ch.properties prop_notify) && not (has ch.properties prop_indicate)
      then (false, ch, c)
      else elim (announce true ch' c) [
        | none ↦ (false, ch, c)
        | some c1 ↦ (true, ch', call_notify ch' c1)
      ]

  unfoldable pub stop_notify :
      GattCharacteristic → DBusConnection → Bool × GattCharacteristic × DBusConnection
  unfolding announce
  stop_notify ch c =
      let ch' = record ch { notifying = false } in
      if not ch.notifying
      then (true, ch, c)
      else elim (announce false ch' c) [ none ↦ (false, ch, c) | some c1 ↦ (true, ch', c1) ]

  -- The reply to `ReadValue` once the bytes are known.
  unfoldable pub reply_bytes : ℕ → Text → DBusConnection → DBusConnection
  reply_bytes invocation b c = elim (build env (bytes b)) [
    | none ↦ call (return_error invocation failed (codes "Failed to create response")) c
    | some v ↦ call (return_value invocation (some (value v))) c
  ]

  -- `ReadValue`, of a characteristic or a descriptor: the callback's answer, or else the value.
  unfoldable pub reply_read :
      ℕ → Option (List Event → Outcome Text) → Text → DBusConnection → DBusConnection
  unfolding reply_bytes
  reply_read invocation none stored c = reply_bytes invocation stored c
  reply_read invocation (some f) stored c =
      let c1 = call read_callback c in
      elim (f c1.history) [
        | returns b ↦ reply_bytes invocation b c1
        | throws what ↦ call (return_error invocation failed what) c1
      ]

  unfoldable pub handle_read_value :
      DBusMethodCall → GattCharacteristic → DBusConnection → DBusConnection
  unfolding reply_read
  handle_read_value m ch c = elim m.invocation [
    | none ↦ c
    | some i ↦ reply_read i ch.read_callback ch.value c
  ]

  -- `Utils::stringFromGVariantByteArray`: the bytes are copied behind one another and read as a C
  -- string.
  unfoldable pub string_from_byte_array : Variant → Text
  unfolding c_str
  string_from_byte_array v = c_str (env.fixed_array v)

  -- What `WriteValue` does with its callback: whether the write may go on, and if not, the message.
  unfoldable pub ask_write :
      Option (Text → List Event → Outcome Bool)
      → Text
      → DBusConnection
      → Outcome Bool × DBusConnection
  ask_write none new c = (returns true, c)
  ask_write (some f) new c = let c1 = call (write_callback new) c in (f new c1.history, c1)

  -- `WriteValue` of an object whose value is written by `store`.
  unfoldable pub answer_write :
      {A : Type 0}
      → ℕ
      → Outcome Bool × DBusConnection
      → (DBusConnection → A × DBusConnection)
      → A
      → A × DBusConnection
  answer_write invocation (throws what, c) store a =
      (a, call (return_error invocation failed what) c)
  answer_write invocation (returns false, c) store a =
      (a, call (return_error invocation failed (codes "Write operation failed")) c)
  answer_write invocation (returns true, c) store a =
      let (a', c1) = store c in (a', call (return_value invocation none) c1)

  unfoldable pub write_parameters :
      ℕ → Option Variant → GattCharacteristic → DBusConnection → GattCharacteristic × DBusConnection
  unfolding string_from_byte_array ask_write answer_write
  write_parameters i none ch c =
      (ch, call (return_error i invalid_args (codes "Missing parameters")) c)
  write_parameters i (some v) ch c =
      let new = string_from_byte_array v in
      answer_write i (ask_write ch.write_callback new c) (λ c1. (record ch { value = new }, c1)) ch

  unfoldable pub handle_write_value :
      DBusMethodCall → GattCharacteristic → DBusConnection → GattCharacteristic × DBusConnection
  unfolding write_parameters
  handle_write_value m ch c = elim m.invocation [
    | none ↦ (ch, c)
    | some i ↦ write_parameters i m.parameters ch c
  ]

  unfoldable pub handle_start_notify :
      DBusMethodCall → GattCharacteristic → DBusConnection → GattCharacteristic × DBusConnection
  unfolding start_notify
  handle_start_notify m ch c = elim m.invocation [
    | none ↦ (ch, c)
    | some i ↦
        (let (ok, ch', c1) = start_notify ch c in
          if ok
          then (ch', call (return_value i none) c1)
          else (ch', call (return_error i not_supported (codes "Notifications not supported")) c1))
  ]

  unfoldable pub handle_stop_notify :
      DBusMethodCall → GattCharacteristic → DBusConnection → GattCharacteristic × DBusConnection
  unfolding stop_notify
  handle_stop_notify m ch c = elim m.invocation [
    | none ↦ (ch, c)
    | some i ↦
        (let (ok, ch', c1) = stop_notify ch c in
          if ok
          then (ch', call (return_value i none) c1)
          else (ch', call (return_error i failed (codes "Failed to stop notifications")) c1))
  ]

  unfoldable pub get_uuid_property : GattCharacteristic → Option Value
  unfolding to_blue_z_format
  get_uuid_property ch = build env (string (to_blue_z_format ch.uuid))

  unfoldable pub get_service_property : GattCharacteristic → Option Value
  get_service_property ch = build env (object_path ch.service.path)

  unfoldable pub get_properties_property : GattCharacteristic → Option Value
  unfolding characteristic_flags
  get_properties_property ch =
      build env (string_array (characteristic_flags ch.properties ch.permissions))

  unfoldable pub get_notifying_property : GattCharacteristic → Option Value
  get_notifying_property ch = build env (boolean ch.notifying)

-- The paths of the descriptors that are not null, in the order of their UUIDs.
unfoldable pub descriptor_paths : Dict (Option GattDescriptor) → List Text
descriptor_paths [] = []
descriptor_paths ((uuid, none) ∷ m) = descriptor_paths m
descriptor_paths ((uuid, some d) ∷ m) = d.object.path.path ∷ descriptor_paths m

unfoldable pub get_descriptors_property : Environment → GattCharacteristic → Option Value
unfolding descriptor_paths
get_descriptors_property env ch = build env (string_array (descriptor_paths ch.descriptors))
