-- ===== src/Gatt/Locks/Operations.antt =====
-- What a thread may do with a characteristic and its descriptor: with the mutexes, and as the modules
-- `Gatt.Characteristic` and `Gatt.Descriptor` have it, without them.
use bluetooth_le.Prelude.{ℕ, List, [], ◌∷◌, Option, Text}
use bluetooth_le.Uuid.{GattUuid}
use bluetooth_le.Gio.{Environment}
use bluetooth_le.DBusTypes.{DBusMethodCall}
use bluetooth_le.Connection.{DBusConnection}
use bluetooth_le.Threads.{return, ◌>>◌}
use bluetooth_le.Gatt.Records.{
  GattCharacteristic, GattDescriptor, ReadCallback, WriteCallback, NotifyCallback,
}
use bluetooth_le.Gatt.Characteristic
use bluetooth_le.Gatt.Create
use bluetooth_le.Gatt.Descriptor
use bluetooth_le.Gatt.Locks
use bluetooth_le.Gatt.Locks.Descriptors
use bluetooth_le.Gatt.Locks.Fields
use bluetooth_le.Gatt.Locks.{Shared, Code}

-- The operations of the characteristic, then those of the descriptor.
pub data Operation : Type 0 where
  set_value : Text → Operation
  start_notify stop_notify is_notifying get_value get_descriptors : Operation
  get_notifying_property get_descriptors_property : Operation
  get_descriptor : GattUuid → Operation
  create_descriptor : GattUuid → ℕ → Operation
  read_value write_value handle_start handle_stop : DBusMethodCall → Operation
  set_read_callback : Option ReadCallback → Operation
  set_write_callback : Option WriteCallback → Operation
  set_notify_callback : Option NotifyCallback → Operation
  set_descriptor : Text → Operation
  get_descriptor_value : Operation
  read_descriptor write_descriptor : DBusMethodCall → Operation
  set_descriptor_read : Option ReadCallback → Operation
  set_descriptor_write : Option WriteCallback → Operation

-- A result of the characteristic and the connection, put into the shared state.
abbrev pub stored : Shared → GattCharacteristic × DBusConnection → Shared
stored s (ch, c) = record s { characteristic = ch; connection = c }

abbrev pub stored_both : (GattDescriptor × GattCharacteristic) × DBusConnection → Shared
stored_both ((d, ch), c) = record { descriptor = d; characteristic = ch; connection = c }

module _ (env : Environment) where
  unfoldable pub program : Operation → Code (Unit {0})
  program (set_value new) = Locks.set_value env new
  program start_notify = Locks.start_notify env >> return tt
  program stop_notify = Locks.stop_notify env >> return tt
  program is_notifying = Fields.is_notifying >> return tt
  program get_value = Fields.get_value >> return tt
  program get_descriptors = Fields.get_descriptors >> return tt
  program get_notifying_property = Locks.get_notifying_property env >> return tt
  program get_descriptors_property = Locks.get_descriptors_property env >> return tt
  program (get_descriptor uuid) = Fields.get_descriptor uuid >> return tt
  program (create_descriptor uuid permissions) =
      Fields.create_descriptor env uuid permissions >> return tt
  program (read_value m) = Locks.handle_read_value env m
  program (write_value m) = Locks.handle_write_value env m
  program (handle_start m) = Locks.handle_start_notify env m
  program (handle_stop m) = Locks.handle_stop_notify env m
  program (set_read_callback f) = Fields.set_read_callback f
  program (set_write_callback f) = Fields.set_write_callback f
  program (set_notify_callback f) = Fields.set_notify_callback f
  program (set_descriptor new) = Descriptors.set_value env new
  program get_descriptor_value = Descriptors.get_value >> return tt
  program (read_descriptor m) = Descriptors.handle_read_value env m
  program (write_descriptor m) = Descriptors.handle_write_value env m
  program (set_descriptor_read f) = Descriptors.set_read_callback f
  program (set_descriptor_write f) = Descriptors.set_write_callback f

  -- The same operation by the functions that do not mention mutexes.
  unfoldable pub effect : Operation → Shared → Shared
  unfolding Characteristic.set_value Characteristic.start_notify Characteristic.stop_notify
      Characteristic.handle_read_value Characteristic.handle_write_value
      Characteristic.handle_start_notify Characteristic.handle_stop_notify Descriptor.set_value
      Descriptor.handle_read_value Descriptor.handle_write_value Create.create_descriptor
  effect (set_value new) s =
      stored s (Characteristic.set_value env new s.characteristic s.connection)
  effect start_notify s =
      let (ok, ch, c) = Characteristic.start_notify env s.characteristic s.connection in
      stored s (ch, c)
  effect stop_notify s =
      let (ok, ch, c) = Characteristic.stop_notify env s.characteristic s.connection in
      stored s (ch, c)
  effect (create_descriptor uuid permissions) s =
      let (d, ch, c) =
        Create.create_descriptor env uuid permissions s.characteristic s.connection in
      stored s (ch, c)
  effect (read_value m) s = record s {
    connection = Characteristic.handle_read_value env m s.characteristic s.connection;
  }
  effect (write_value m) s =
      stored s (Characteristic.handle_write_value env m s.characteristic s.connection)
  effect (handle_start m) s =
      stored s (Characteristic.handle_start_notify env m s.characteristic s.connection)
  effect (handle_stop m) s =
      stored s (Characteristic.handle_stop_notify env m s.characteristic s.connection)
  effect (set_read_callback f) s = record s {
    characteristic = record s.characteristic { read_callback = f };
  }
  effect (set_write_callback f) s = record s {
    characteristic = record s.characteristic { write_callback = f };
  }
  effect (set_notify_callback f) s = record s {
    characteristic = record s.characteristic { notify_callback = f };
  }
  effect (set_descriptor new) s =
      stored_both (Descriptor.set_value env new s.descriptor s.characteristic s.connection)
  effect (read_descriptor m) s = record s {
    connection = Descriptor.handle_read_value env m s.descriptor s.connection;
  }
  effect (write_descriptor m) s =
      stored_both (Descriptor.handle_write_value env m s.descriptor s.characteristic s.connection)
  effect (set_descriptor_read f) s = record s {
    descriptor = record s.descriptor { read_callback = f };
  }
  effect (set_descriptor_write f) s = record s {
    descriptor = record s.descriptor { write_callback = f };
  }
  effect _ s = s

  -- Operations one after the other.
  unfoldable pub effects : List Operation → Shared → Shared
  unfolding effect
  effects [] s = s
  effects (op ∷ ops) s = effects ops (effect op s)
