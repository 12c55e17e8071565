-- ===== src/Gatt/Locks/Fields.antt =====
-- The functions of a characteristic that only read or set a field of it under a mutex, and the creation
-- of a descriptor: include/GattCharacteristic.h and src/GattCharacteristic.cpp.
use bluetooth_le.Prelude.{ℕ, Bool, [], ◌∷◌, Option, none, some, Text, Dict}
use bluetooth_le.Gio.{Environment}
use bluetooth_le.Threads.{return, ◌>>=◌, ◌>>◌, guarded, change}
use bluetooth_le.Gatt.Records.{GattDescriptor, ReadCallback, WriteCallback, NotifyCallback}
use bluetooth_le.Gatt.Create
use bluetooth_le.Gatt.Create.{lookup, cleaned}
use bluetooth_le.Uuid.{GattUuid}
use bluetooth_le.Gatt.Locks.{
  Code, read_field, write_field, value_mutex, notify_mutex, descriptors_mutex, callback_mutex,
}

module _ (env : Environment) (uuid : GattUuid) (permissions : ℕ) where
  -- What `createDescriptor` does with what it finds. The mutex of the new descriptor, which no other
  -- thread knows yet, is left out.
  unfoldable pub descriptor_found : Text → Option GattDescriptor → Code (Option GattDescriptor)
  descriptor_found key (some d) = return (some d)
  descriptor_found key none = do
    write_field (λ ch. record ch { descriptors = cleaned key ch.descriptors })
    change (λ s.
        let (d, ch, c) = Create.add_descriptor env uuid permissions s.characteristic s.connection in
        (d, record s { characteristic = ch; connection = c }))

  unfoldable pub create_descriptor_at : Text → Code (Option GattDescriptor)
  create_descriptor_at [] = return none
  create_descriptor_at (x ∷ key) =
      guarded descriptors_mutex
        (read_field (λ ch. lookup (x ∷ key) ch.descriptors) >>= descriptor_found (x ∷ key))

  unfoldable pub create_descriptor : Code (Option GattDescriptor)
  create_descriptor = create_descriptor_at uuid.uuid

unfoldable pub get_value : Code Text
get_value = guarded value_mutex (read_field (λ ch. ch.value))

unfoldable pub is_notifying : Code Bool
is_notifying = guarded notify_mutex (read_field (λ ch. ch.notifying))

unfoldable pub get_descriptors : Code (Dict (Option GattDescriptor))
get_descriptors = guarded descriptors_mutex (read_field (λ ch. ch.descriptors))

unfoldable pub get_descriptor : GattUuid → Code (Option GattDescriptor)
get_descriptor uuid = guarded descriptors_mutex (read_field (Create.get_descriptor uuid))

unfoldable pub set_read_callback : Option ReadCallback → Code (Unit {0})
set_read_callback f = guarded callback_mutex (write_field (λ ch. record ch { read_callback = f }))

unfoldable pub set_write_callback : Option WriteCallback → Code (Unit {0})
set_write_callback f = guarded callback_mutex (write_field (λ ch. record ch { write_callback = f }))

unfoldable pub set_notify_callback : Option NotifyCallback → Code (Unit {0})
set_notify_callback f =
    guarded callback_mutex (write_field (λ ch. record ch { notify_callback = f }))
