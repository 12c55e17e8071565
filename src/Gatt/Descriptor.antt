-- ===== src/Gatt/Descriptor.antt =====
-- src/GattDescriptor.cpp: the value of a descriptor, its calls and its properties. The client's
-- configuration descriptor (0x2902) turns the notifications of its characteristic on and off, so
-- the characteristic is an argument of what may write it.
pub mod Configuration
use bluetooth_le.Prelude.{
  ℕ, ◌≡◌, Bool, true, false, ◌&&◌, ◌||◌, List, [], ◌∷◌, Option, none, some, Text, codes,
  if◌then◌else◌, text_eq,
}
use bluetooth_le.Uuid.{GattUuid, to_blue_z_format, to_blue_z_short_format}
use bluetooth_le.Gio.{
  Value, Variant, Environment, string, object_path, string_array, bytes, return_error, invalid_args,
  build,
}
use bluetooth_le.DBusTypes.{DBusMethodCall}
use bluetooth_le.Connection.{DBusConnection, call}
use bluetooth_le.DBusObject.{emit_property_changed}
use bluetooth_le.Gatt.Records.{GattCharacteristic, GattDescriptor, gatt_descriptor_interface}
use bluetooth_le.Gatt.Flags.{has, descriptor_flags}
use bluetooth_le.Gatt.Characteristic.{
  start_notify, stop_notify, reply_read, string_from_byte_array, ask_write, answer_write,
}

unfoldable pub is_configuration : GattUuid → Bool
unfolding to_blue_z_short_format text_eq
is_configuration u = text_eq (to_blue_z_short_format u) (codes "00002902")

module _ (env : Environment) where
  -- The change of the characteristic: only a value of two bytes or more has an effect.
  unfoldable pub configure :
      Text → GattCharacteristic → DBusConnection → GattCharacteristic × DBusConnection
  unfolding start_notify stop_notify
  configure [] ch c = (ch, c)
  configure (b0 ∷ []) ch c = (ch, c)
  configure (b0 ∷ b1 ∷ rest) ch c =
      let (started, ch1, c1) = start_notify env ch c in
      let (stopped, ch2, c2) = stop_notify env ch c in
      if has b0 0x01 || has b0 0x02 then (ch1, c1) else (ch2, c2)

  -- The signal at the end of `setValue`.
  unfoldable pub emit_value : GattDescriptor → DBusConnection → DBusConnection
  unfolding emit_property_changed
  emit_value d c =
      if d.object.registered
      then elim (build env (bytes d.value)) [
        | none ↦ c
        | some v ↦
            (emit_property_changed env gatt_descriptor_interface (codes "Value") v d.object c).1
      ]
      else c

  unfoldable pub set_value :
      Text
      → GattDescriptor
      → GattCharacteristic
      → DBusConnection
      → (GattDescriptor × GattCharacteristic) × DBusConnection
  unfolding is_configuration configure emit_value
  set_value new d ch c =
      let d' = record d { value = new } in
      let (ch', c1) = if is_configuration d.uuid then configure new ch c else (ch, c) in
      ((d', ch'), emit_value d' c1)

  unfoldable pub handle_read_value :
      DBusMethodCall → GattDescriptor → DBusConnection → DBusConnection
  unfolding reply_read
  handle_read_value m d c = elim m.invocation [
    | none ↦ c
    | some i ↦ reply_read env i d.read_callback d.value c
  ]

  unfoldable pub write_parameters :
      ℕ
      → Option Variant
      → GattDescriptor
      → GattCharacteristic
      → DBusConnection
      → (GattDescriptor × GattCharacteristic) × DBusConnection
  unfolding string_from_byte_array ask_write answer_write set_value
  write_parameters i none d ch c =
      ((d, ch), call (return_error i invalid_args (codes "Missing parameters")) c)
  write_parameters i (some v) d ch c =
      let new = string_from_byte_array env v in
      answer_write env i (ask_write env d.write_callback new c) (set_value new d ch) (d, ch)

  unfoldable pub handle_write_value :
      DBusMethodCall
      → GattDescriptor
      → GattCharacteristic
      → DBusConnection
      → (GattDescriptor × GattCharacteristic) × DBusConnection
  unfolding write_parameters
  handle_write_value m d ch c = elim m.invocation [
    | none ↦ ((d, ch), c)
    | some i ↦ write_parameters i m.parameters d ch c
  ]

  unfoldable pub get_uuid_property : GattDescriptor → Option Value
  unfolding to_blue_z_format
  get_uuid_property d = build env (string (to_blue_z_format d.uuid))

  unfoldable pub get_characteristic_property : GattDescriptor → Option Value
  get_characteristic_property d = build env (object_path d.characteristic.path)

  unfoldable pub get_permissions_property : GattDescriptor → Option Value
  unfolding descriptor_flags
  get_permissions_property d = build env (string_array (descriptor_flags d.permissions))
