-- ===== src/Gatt/Locks/Order.antt =====
-- The mutexes of a characteristic and its descriptor are taken in the order of their numbers, as long
-- as `ReadValue` finds a callback: without one it takes the mutex of the value under that of the
-- callbacks, where `setValue` takes them the other way round.
pub mod Descriptors
pub mod Fields
pub mod Handlers
use mathlib.Core.Bool.{true≢false}
use bluetooth_le.Prelude.{
  ℕ, ◌≡◌, refl, sym, ap, ◌∙◌, Bool, true, false, List, [], ◌∷◌, Option, none, some, Text, arith,
  if◌then◌else◌, Option-cases, inl, inr, subst, not, ◌||◌, ◌&&◌, Bool-cases,
}
use bluetooth_le.Gio.{Value, Variant, Outcome, returns, throws, Environment}
use bluetooth_le.DBusTypes.{DBusMethodCall}
use bluetooth_le.Connection.{DBusConnection}
use bluetooth_le.Threads.{Program, return, ◌>>=◌, ◌>>◌, guarded}
use bluetooth_le.Threads.Order.{
  Above, Follows, bind-Ordered, then-Ordered, guarded-Ordered, return-Ordered, act-Ordered,
  if-Ordered,
}
use bluetooth_le.Gatt.Records.{GattCharacteristic, GattDescriptor, ReadCallback, WriteCallback}
use bluetooth_le.Gatt.Flags.{has, prop_notify, prop_indicate}
use bluetooth_le.Gatt.Locks
use bluetooth_le.Gatt.Locks.{Shared, Code, read_field, write_field, ask, answer}

abbrev pub mutexes : ℕ
mutexes = 6

-- What threads keep true of the notifications, besides the read callback: a property of the flag that
-- holds when it is off, and when it is on if the bits of the characteristic allow that.
pub record Law : Type 1 where
  pub properties : ℕ
  pub allows : Bool → Type 0
  pub off : allows false
  pub on : (has properties prop_notify || has properties prop_indicate) ≡ true → allows true

-- The characteristic has a read callback, and the law's properties; its flag keeps the law.
pub record Keeps (w : Law) (s : Shared) : Type 0 where
  pub reader : (f : ReadCallback) × (s.characteristic.read_callback ≡ some f)
  pub same : s.characteristic.properties ≡ w.properties
  pub allowed : w.allows s.characteristic.notifying

abbrev pub Ordered : {A : Type 0} → Law → List ℕ → Code A → Type 0
Ordered w h p = Follows mutexes (Keeps w) h h p

-- The characteristic has a read callback.
unfoldable pub HasReader : Shared → Type 0
HasReader s = (f : ReadCallback) × (s.characteristic.read_callback ≡ some f)

-- A change of the characteristic that leaves these three fields.
pub record Leaves (f : GattCharacteristic → GattCharacteristic) : Type 0 where
  pub reader : (ch : GattCharacteristic) → (f ch).read_callback ≡ ch.read_callback
  pub properties : (ch : GattCharacteristic) → (f ch).properties ≡ ch.properties
  pub notifying : (ch : GattCharacteristic) → (f ch).notifying ≡ ch.notifying

pub left-Keeps :
    (w : Law) (s s' : Shared)
    → s'.characteristic.read_callback ≡ s.characteristic.read_callback
    → s'.characteristic.properties ≡ s.characteristic.properties
    → s'.characteristic.notifying ≡ s.characteristic.notifying
    → Keeps w s
    → Keeps w s'
left-Keeps w s s' r p n k = record {
  reader = (k.reader.0, r ∙ k.reader.1);
  same = p ∙ k.same;
  allowed = subst w.allows (sym n) k.allowed;
}

pub read_field-Ordered :
    (w : Law) {A : Type 0} (h : List ℕ) (f : GattCharacteristic → A) → Ordered w h (read_field f)
read_field-Ordered w h f =
    act-Ordered mutexes (Keeps w) h (λ s. s) (λ s. f s.characteristic) (λ s good. good)

pub ask-Ordered :
    (w : Law) (h : List ℕ) (f : GattCharacteristic → DBusConnection → DBusConnection)
    → Ordered w h (ask f)
ask-Ordered w h f =
    act-Ordered mutexes (Keeps w) h (λ s. record s { connection = f s.characteristic s.connection })
      (λ _. tt) (λ s good. left-Keeps w s _ refl refl refl good)

pub write_field-Ordered :
    (w : Law) (h : List ℕ) (f : GattCharacteristic → GattCharacteristic)
    → Leaves f
    → Ordered w h (write_field f)
write_field-Ordered w h f kept =
    act-Ordered mutexes (Keeps w) h (λ s. record s { characteristic = f s.characteristic })
      (λ _. tt)
      (λ s good.
        left-Keeps w s _ (kept.reader s.characteristic) (kept.properties s.characteristic)
          (kept.notifying s.characteristic) good)

pub value-Leaves : (new : Text) → Leaves (λ ch. record ch { value = new })
value-Leaves new = record { reader = λ ch. refl; properties = λ ch. refl; notifying = λ ch. refl }

-- The flag of the notifications is written where the law allows it.
pub notifying-Ordered :
    (w : Law) (h : List ℕ) (b : Bool)
    → w.allows b
    → Ordered w h (write_field (λ ch. record ch { notifying = b }))
notifying-Ordered w h b ok =
    act-Ordered mutexes (Keeps w) h _ (λ _. tt)
      (λ s good. record { reader = good.reader; same = good.same; allowed = ok })

-- What is read is known to the rest of the program.
read_then-Ordered :
    (w : Law) {A B : Type 0} (h : List ℕ) (f : GattCharacteristic → A) (k : A → Code B)
    → ((s : Shared) → Keeps w s → Ordered w h (k (f s.characteristic)))
    → Ordered w h (read_field f >>= k)
unfolding Follows ◌>>=◌
read_then-Ordered w h f k go = λ s good. (good, go s good)

neither : (a b : Bool) → (a || b) ≡ false → (not a && not b) ≡ true
neither true b e = absurd (true≢false e)
neither false true e = absurd (true≢false e)
neither false false e = refl

pub ruleset order = (
  write_field-Ordered, value-Leaves, bind-Ordered, then-Ordered, guarded-Ordered, return-Ordered,
  if-Ordered, read_field-Ordered, ask-Ordered,
)

module _ (w : Law) (env : Environment) where
  announce_value-Ordered : (o : Option Value) → Ordered w (0 ∷ []) (Locks.announce_value env o)
  unfolding Locks.announce_value Above
  announce_value-Ordered none = search order
  announce_value-Ordered (some v) = search (order, arith) depth 10

  pub set_value-Ordered : (new : Text) → Ordered w [] (Locks.set_value env new)
  unfolding Locks.set_value Above
  set_value-Ordered new = search (order, announce_value-Ordered, arith) depth 10

  announce_notifying-Ordered :
      (b : Bool) (o : Option Value)
      → w.allows (not b)
      → Ordered w (1 ∷ []) (Locks.announce_notifying env b o)
  unfolding Locks.announce_notifying
  announce_notifying-Ordered b none ok = search (order, notifying-Ordered)
  announce_notifying-Ordered b (some v) ok = search order

  announce-Ordered :
      (b : Bool) → w.allows b → w.allows (not b) → Ordered w (1 ∷ []) (Locks.announce env b)
  unfolding Locks.announce
  announce-Ordered b ok back =
      search (order, notifying-Ordered, announce_notifying-Ordered) depth 10

  started-Ordered : (b : Bool) → Ordered w (1 ∷ []) (Locks.started env b)
  unfolding Locks.started Above
  started-Ordered false = search order
  started-Ordered true = search (order, arith)

  -- Behind the first test of `startNotify`: the properties allow it, or it ends.
  start_branch-Ordered :
      (ps : ℕ)
      → ps ≡ w.properties
      → Ordered w (1 ∷ []) (
          if not (has ps prop_notify) && not (has ps prop_indicate)
          then return false
          else Locks.announce env true >>= Locks.started env)
  start_branch-Ordered ps e = elim (Bool-cases (has ps prop_notify || has ps prop_indicate)) [
    | inl yes_on ↦
        if-Ordered mutexes (Keeps w) (1 ∷ [])
          (not (has ps prop_notify) && not (has ps prop_indicate)) (return false) _ (search order)
          (bind-Ordered mutexes (Keeps w) (1 ∷ []) _ _
            (announce-Ordered true
              (w.on (subst (λ x. (has x prop_notify || has x prop_indicate) ≡ true) e yes_on))
              w.off)
            started-Ordered)
    | inr none_on ↦
        subst
          (λ b.
            Ordered w (1 ∷ [])
              (if b then return false else Locks.announce env true >>= Locks.started env))
          (sym (neither (has ps prop_notify) (has ps prop_indicate) none_on))
          (return-Ordered mutexes (Keeps w) (1 ∷ []) false)
  ]

  pub start_notify-Ordered : Ordered w [] (Locks.start_notify env)
  unfolding Locks.start_notify Above
  start_notify-Ordered = guarded-Ordered mutexes (Keeps w) [] 1 _ (omega arith) tt (
      read_then-Ordered w (1 ∷ []) _ _ λ s1 k1. read_then-Ordered w (1 ∷ []) _ _ λ s2 k2.
        if-Ordered mutexes (Keeps w) (1 ∷ []) s1.characteristic.notifying _ _ (search order)
          (start_branch-Ordered s2.characteristic.properties k2.same))

  stop_branch-Ordered :
      (b : Bool)
      → w.allows b
      → Ordered w (1 ∷ []) (if b then Locks.announce env false else return true)
  stop_branch-Ordered true ok = announce-Ordered false w.off ok
  stop_branch-Ordered false ok = search order

  pub stop_notify-Ordered : Ordered w [] (Locks.stop_notify env)
  unfolding Locks.stop_notify Above
  stop_notify-Ordered = guarded-Ordered mutexes (Keeps w) [] 1 _ (omega arith) tt (
      read_then-Ordered w (1 ∷ []) _ _
        λ s k. stop_branch-Ordered s.characteristic.notifying k.allowed)
