-- ===== src/Gatt/Locks/Order/Handlers.antt =====
-- The handlers of a characteristic take the mutexes in order, and keep what the law says.
use bluetooth_le.Prelude.{
  ℕ, refl, Bool, true, false, List, [], Option, none, some, Text, arith, Option-cases, inl, inr,
}
use bluetooth_le.Gio.{Variant, Outcome, returns, throws, Environment}
use bluetooth_le.DBusTypes.{DBusMethodCall}
use bluetooth_le.Threads.{◌>>=◌}
use bluetooth_le.Threads.Order.{Above, Follows, bind-Ordered, act-Ordered}
use bluetooth_le.Gatt.Records.{ReadCallback, WriteCallback}
use bluetooth_le.Gatt.Locks
use bluetooth_le.Gatt.Locks.{Shared, Code, read_field, write_field, ask, answer}
use bluetooth_le.Gatt.Locks.Order.{
  Law, Keeps, mutexes, Ordered, order, left-Keeps, start_notify-Ordered, stop_notify-Ordered,
}

module _ (w : Law) (env : Environment) where
  called-Ordered :
      {A : Type 0} (h : List ℕ) (i : ℕ) (o : Outcome A) → Ordered w h (Locks.called env i o)
  unfolding Locks.called
  called-Ordered h i (returns a) = search order
  called-Ordered h i (throws what) = search order

  pub call_read-Ordered :
      (h : List ℕ) (i : ℕ) (f : ReadCallback) → Ordered w h (Locks.call_read env i f)
  unfolding Locks.call_read
  call_read-Ordered h i f =
      bind-Ordered mutexes (Keeps w) h _ (Locks.called env i)
        (act-Ordered mutexes (Keeps w) h _ _ (λ s good. left-Keeps w s _ refl refl refl good))
        (called-Ordered h i)

  pub ask_write-Ordered :
      (h : List ℕ) (i : ℕ) (new : Text) (o : Option WriteCallback)
      → Ordered w h (Locks.ask_write env i new o)
  unfolding Locks.ask_write
  ask_write-Ordered h i new none = search order
  ask_write-Ordered h i new (some f) =
      bind-Ordered mutexes (Keeps w) h _ (Locks.called env i)
        (act-Ordered mutexes (Keeps w) h _ _ (λ s good. left-Keeps w s _ refl refl refl good))
        (called-Ordered h i)

  -- There is a callback, so the value's mutex is not taken.
  reader-Ordered :
      (h : List ℕ) (i : ℕ)
      → Ordered w h (read_field (λ ch. ch.read_callback) >>= Locks.ask_read env i)
  unfolding ◌>>=◌ Follows Locks.ask_read
  reader-Ordered h i = λ s good. (good, rw good.reader.1 (call_read-Ordered h i good.reader.0))

  pub reply_read-Ordered :
      (h : List ℕ) (i : ℕ) (o : Option Text) → Ordered w h (Locks.reply_read env i o)
  unfolding Locks.reply_read
  reply_read-Ordered h i none = search order
  reply_read-Ordered h i (some b) = search order

  pub handle_read_value-Ordered :
      (m : DBusMethodCall) → Ordered w [] (Locks.handle_read_value env m)
  unfolding Locks.handle_read_value Above
  handle_read_value-Ordered m = elim (Option-cases m.invocation) [
    | inl e ↦ rw e (search order)
    | inr (i, e) ↦ rw e (search (order, reader-Ordered, reply_read-Ordered, arith))
  ]

  pub reply_write-Ordered :
      (i : ℕ) (store : Code (Unit {0})) (o : Option Bool)
      → Ordered w [] store
      → Ordered w [] (Locks.reply_write env i store o)
  unfolding Locks.reply_write
  reply_write-Ordered i store none f = search order
  reply_write-Ordered i store (some false) f = search order
  reply_write-Ordered i store (some true) f = search order

  write_parameters-Ordered :
      (i : ℕ) (o : Option Variant) → Ordered w [] (Locks.write_parameters env i o)
  unfolding Locks.write_parameters Above
  write_parameters-Ordered i none = search order
  write_parameters-Ordered i (some v) =
      search (order, ask_write-Ordered, reply_write-Ordered, arith) depth 10

  pub handle_write_value-Ordered :
      (m : DBusMethodCall) → Ordered w [] (Locks.handle_write_value env m)
  unfolding Locks.handle_write_value
  handle_write_value-Ordered m = elim (Option-cases m.invocation) [
    | inl e ↦ rw e (search order)
    | inr (i, e) ↦ rw e (write_parameters-Ordered i m.parameters)
  ]

  pub handle_start_notify-Ordered :
      (m : DBusMethodCall) → Ordered w [] (Locks.handle_start_notify env m)
  unfolding Locks.handle_start_notify
  handle_start_notify-Ordered m = elim (Option-cases m.invocation) [
    | inl e ↦ rw e (search order)
    | inr (i, e) ↦ rw e (search (order, start_notify-Ordered))
  ]

  pub handle_stop_notify-Ordered :
      (m : DBusMethodCall) → Ordered w [] (Locks.handle_stop_notify env m)
  unfolding Locks.handle_stop_notify
  handle_stop_notify-Ordered m = elim (Option-cases m.invocation) [
    | inl e ↦ rw e (search order)
    | inr (i, e) ↦ rw e (search (order, stop_notify-Ordered))
  ]
