-- ===== src/Gatt/Locks/Order/Descriptors.antt =====
-- The mutexes of a descriptor are taken in the order of their numbers, and its characteristic is changed with none held.
use bluetooth_le.Prelude.{
  refl, ℕ, List, [], ◌∷◌, Option, none, some, Text, arith, Option-cases, inl, inr,
}
use bluetooth_le.Gio.{Value, Variant, Environment}
use bluetooth_le.DBusTypes.{DBusMethodCall}
use bluetooth_le.Threads.Order.{Above, act-Ordered}
use bluetooth_le.Gatt.Records.{GattDescriptor, ReadCallback}
use bluetooth_le.Gatt.Locks.Descriptors
use bluetooth_le.Gatt.Locks.Descriptors.{look, put}
use bluetooth_le.Gatt.Locks.Order.{
  Law, left-Keeps, mutexes, Keeps, Ordered, order, ask-Ordered, read_field-Ordered,
  write_field-Ordered, set_value-Ordered, start_notify-Ordered, stop_notify-Ordered,
}
use bluetooth_le.Gatt.Locks.Order.Handlers.{
  call_read-Ordered, ask_write-Ordered, reply_read-Ordered, reply_write-Ordered,
}

pub look-Ordered :
    (w : Law) {A : Type 0} (h : List ℕ) (f : GattDescriptor → A) → Ordered w h (look f)
look-Ordered w h f = act-Ordered mutexes (Keeps w) h (λ s. s) (λ s. f s.descriptor) (λ s good. good)

pub put-Ordered : (w : Law) (h : List ℕ) (f : GattDescriptor → GattDescriptor) → Ordered w h (put f)
put-Ordered w h f =
    act-Ordered mutexes (Keeps w) h (λ s. record s { descriptor = f s.descriptor }) (λ _. tt)
      (λ s good. left-Keeps w s _ refl refl refl good)

pub ruleset descriptor_order = (order, look-Ordered, put-Ordered)

module _ (w : Law) (env : Environment) where
  configure-Ordered : (new : Text) → Ordered w [] (Descriptors.configure env new)
  unfolding Descriptors.configure
  configure-Ordered [] = search order
  configure-Ordered (b0 ∷ []) = search order
  configure-Ordered (b0 ∷ b1 ∷ rest) = search (order, start_notify-Ordered, stop_notify-Ordered)

  announce_value-Ordered : (o : Option Value) → Ordered w [] (Descriptors.announce_value env o)
  unfolding Descriptors.announce_value
  announce_value-Ordered none = search order
  announce_value-Ordered (some v) =
      act-Ordered mutexes (Keeps w) [] _ (λ _. tt) (λ s good. left-Keeps w s _ refl refl refl good)

  announce-Ordered : Ordered w [] (Descriptors.announce env)
  unfolding Descriptors.announce
  announce-Ordered = search (descriptor_order, announce_value-Ordered) depth 10

  pub set_descriptor-Ordered : (new : Text) → Ordered w [] (Descriptors.set_value env new)
  unfolding Descriptors.set_value Above
  set_descriptor-Ordered new =
      search (descriptor_order, configure-Ordered, announce-Ordered, arith) depth 10

  ask_read-Ordered :
      (i : ℕ) (o : Option ReadCallback) → Ordered w (4 ∷ []) (Descriptors.ask_read env i o)
  unfolding Descriptors.ask_read Above
  ask_read-Ordered i none = search (descriptor_order, arith)
  ask_read-Ordered i (some f) = call_read-Ordered w env (4 ∷ []) i f

  pub read_descriptor-Ordered :
      (m : DBusMethodCall) → Ordered w [] (Descriptors.handle_read_value env m)
  unfolding Descriptors.handle_read_value Above
  read_descriptor-Ordered m = elim (Option-cases m.invocation) [
    | inl e ↦ rw e (search order)
    | inr (i, e) ↦ rw e (search (descriptor_order, ask_read-Ordered, reply_read-Ordered, arith))
  ]

  write_parameters-Ordered :
      (i : ℕ) (o : Option Variant) → Ordered w [] (Descriptors.write_parameters env i o)
  unfolding Descriptors.write_parameters Above
  write_parameters-Ordered i none = search order
  write_parameters-Ordered i (some v) =
      search
        (descriptor_order, ask_write-Ordered, reply_write-Ordered, set_descriptor-Ordered, arith)
        depth 10

  pub write_descriptor-Ordered :
      (m : DBusMethodCall) → Ordered w [] (Descriptors.handle_write_value env m)
  unfolding Descriptors.handle_write_value
  write_descriptor-Ordered m = elim (Option-cases m.invocation) [
    | inl e ↦ rw e (search order)
    | inr (i, e) ↦ rw e (write_parameters-Ordered i m.parameters)
  ]
