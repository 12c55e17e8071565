-- ===== src/Gatt/Locks/Order/Fields.antt =====
-- The creation of a descriptor takes one mutex, and leaves the read callback of the characteristic.
use bluetooth_le.Prelude.{
  ℕ, ◌≡◌, refl, ap, Bool, true, false, List, [], ◌∷◌, Option, none, some, Text, arith, codes,
  length,
}
use bluetooth_le.Uuid.{GattUuid}
use bluetooth_le.Gio.{Environment}
use bluetooth_le.Connection.{DBusConnection}
use bluetooth_le.Threads.Order.{Above, act-Ordered, then-Ordered}
use bluetooth_le.Gatt.Records.{GattDescriptor, Object}
use bluetooth_le.Gatt.Create
use bluetooth_le.Gatt.Setup.{setup_descriptor}
use bluetooth_le.Gatt.Locks.{Shared}
use bluetooth_le.Gatt.Locks.Fields
use bluetooth_le.Gatt.Locks.Order.{
  Law, Keeps, mutexes, Ordered, order, write_field-Ordered, left-Keeps,
}

keep_descriptor-Keeps :
    (w : Law) (d : GattDescriptor) (s s' : Shared) (r : Bool × Object × DBusConnection)
    → s'.characteristic ≡ (Create.keep_descriptor d s.characteristic r).1
    → Keeps w s
    → Keeps w s'
unfolding Create.keep_descriptor
keep_descriptor-Keeps w d s s' (true, o, c) e good =
    left-Keeps w s s' (ap (λ ch. ch.read_callback) e) (ap (λ ch. ch.properties) e)
      (ap (λ ch. ch.notifying) e) good
keep_descriptor-Keeps w d s s' (false, o, c) e good =
    left-Keeps w s s' (ap (λ ch. ch.read_callback) e) (ap (λ ch. ch.properties) e)
      (ap (λ ch. ch.notifying) e) good

module _ (w : Law) (env : Environment) (uuid : GattUuid) (permissions : ℕ) where
  add_descriptor-Keeps :
      (s : Shared)
      → Keeps w s
      → (let (d, ch, c) =
            Create.add_descriptor env uuid permissions s.characteristic s.connection in
          Keeps w (record s { characteristic = ch; connection = c }))
  unfolding Create.add_descriptor
  add_descriptor-Keeps s good =
      let ch = s.characteristic in
      let path = Create.child_path ch.object.path (codes "/desc") (length ch.descriptors) in
      let d = Create.new_descriptor path uuid ch.object.path permissions in
      keep_descriptor-Keeps w d s _ (setup_descriptor env d.object s.connection) refl good

  descriptor_found-Ordered :
      (h : List ℕ) (key : Text) (o : Option GattDescriptor)
      → Ordered w h (Fields.descriptor_found env uuid permissions key o)
  unfolding Fields.descriptor_found
  descriptor_found-Ordered h key (some d) = search order
  descriptor_found-Ordered h key none =
      then-Ordered mutexes (Keeps w) h _ _
        (write_field-Ordered w h _
          (record { reader = λ ch. refl; properties = λ ch. refl; notifying = λ ch. refl }))
        (act-Ordered mutexes (Keeps w) h _ _ add_descriptor-Keeps)

  create_descriptor_at-Ordered :
      (key : Text) → Ordered w [] (Fields.create_descriptor_at env uuid permissions key)
  unfolding Fields.create_descriptor_at Above
  create_descriptor_at-Ordered [] = search order
  create_descriptor_at-Ordered (x ∷ key) = search (order, descriptor_found-Ordered, arith)

  pub create_descriptor-Ordered : Ordered w [] (Fields.create_descriptor env uuid permissions)
  unfolding Fields.create_descriptor
  create_descriptor-Ordered = create_descriptor_at-Ordered uuid.uuid
