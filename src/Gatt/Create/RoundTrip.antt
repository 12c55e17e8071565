-- ===== src/Gatt/Create/RoundTrip.antt =====
-- A child that has been created is found, and is not created again.
use mathlib.Core.Option.{none-ne-some}
use bluetooth_le.Prelude.{
  ℕ, ◌≡◌, refl, sym, ap, ◌∙◌, Bool, true, false, [], ◌∷◌, Option, some, Text, Dict, find, insert,
  find-insert, text_eq_refl, Option-cases, inl, inr, codes, length,
}
use bluetooth_le.Uuid.{GattUuid}
use bluetooth_le.Gio.{Environment}
use bluetooth_le.Connection.{DBusConnection}
use bluetooth_le.Gatt.Records.{Object, GattService, GattCharacteristic}
use bluetooth_le.Gatt.Setup.{setup_characteristic}
use bluetooth_le.Gatt.Create.{
  lookup, cleaned, child_path, new_characteristic, keep_characteristic, add_characteristic,
  create_characteristic_at, create_characteristic, get_characteristic,
}

lookup-found :
    {A : Type 0} (k : Text) (v : A) (m : Dict (Option A))
    → find k m ≡ some (some v)
    → lookup k m ≡ some v
unfolding lookup
lookup-found k v m e = rw (e, lookup) refl

lookup-insert :
    {A : Type 0} (k : Text) (v : A) (m : Dict (Option A)) → lookup k (insert k (some v) m) ≡ some v
lookup-insert k v m =
    lookup-found k v (insert k (some v) m) (find-insert k k (some v) m ∙ rw (text_eq_refl k) refl)

keep-lookup :
    (new : GattCharacteristic) (s : GattService) (r : Bool × Object × DBusConnection)
    {ch : GattCharacteristic}
    → (keep_characteristic new s r).0 ≡ some ch
    → lookup new.uuid.uuid (keep_characteristic new s r).1.characteristics ≡ some ch
unfolding keep_characteristic
keep-lookup new s (false, o, c) {ch} e = elim (none-ne-some ch e) [ ]
keep-lookup new s (true, o, c) e =
    lookup-insert new.uuid.uuid (record new { object = o }) s.characteristics ∙ e

module _ (env : Environment) (uuid : GattUuid) (properties permissions : ℕ) where
  added-lookup :
      (s : GattService) (c : DBusConnection) {ch : GattCharacteristic}
      → (add_characteristic env uuid properties permissions s c).0 ≡ some ch
      → lookup uuid.uuid (add_characteristic env uuid properties permissions s c).1.characteristics
        ≡ some ch
  unfolding add_characteristic
  added-lookup s c e =
      let path = child_path s.object.path (codes "/char") (length s.characteristics) in
      let new = new_characteristic path uuid s.object.path properties permissions in
      keep-lookup new s (setup_characteristic env new.object c) e

  created-lookup :
      (key : Text) (s : GattService) (c : DBusConnection) {ch : GattCharacteristic}
      → key ≡ uuid.uuid
      → (create_characteristic_at env key uuid properties permissions s c).0 ≡ some ch
      → lookup key
          (create_characteristic_at env key uuid properties permissions s c).1.characteristics
        ≡ some ch
  unfolding create_characteristic_at
  created-lookup [] s c {ch} k e = elim (none-ne-some ch e) [ ]
  created-lookup (x ∷ key) s c {ch} k e = elim (Option-cases (lookup (x ∷ key) s.characteristics)) [
    | inl n ↦
        (let s1 = record s { characteristics = cleaned (x ∷ key) s.characteristics } in
          let opened : create_characteristic_at env (x ∷ key) uuid properties permissions s c
              ≡ add_characteristic env uuid properties permissions s1 c =
            rw (n, create_characteristic_at) refl in
          ap (λ r. lookup (x ∷ key) r.1.characteristics) opened
          ∙ ap
              (λ q.
                lookup q
                  (add_characteristic env uuid properties permissions s1 c).1.characteristics)
              k
          ∙ added-lookup s1 c (ap (λ r. r.0) (sym opened) ∙ e))
    | inr (old, n) ↦
        (let opened : create_characteristic_at env (x ∷ key) uuid properties permissions s c
              ≡ (some old, s, c) =
            rw (n, create_characteristic_at) refl in
          ap (λ r. lookup (x ∷ key) r.1.characteristics) opened
          ∙ n
          ∙ ap (λ r. r.0) (sym opened)
          ∙ e)
  ]

create_kept :
    (env : Environment) (uuid : GattUuid) (p q p' q' : ℕ) (key : Text) (s s1 : GattService)
    (c c' : DBusConnection) {ch : GattCharacteristic}
    → (create_characteristic_at env key uuid p q s c).0 ≡ some ch
    → lookup key s1.characteristics ≡ some ch
    → create_characteristic_at env key uuid p' q' s1 c' ≡ (some ch, s1, c')
unfolding create_characteristic_at
create_kept env uuid p q p' q' [] s s1 c c' {ch} e n = elim (none-ne-some ch e) [ ]
create_kept env uuid p q p' q' (x ∷ key) s s1 c c' e n = rw (n, create_characteristic_at) refl

-- A characteristic that a service has created is found by its UUID. Creating one with the same UUID
-- again gives it back and changes nothing, whatever properties and permissions are asked for and
-- whatever the connection is by then.
pub create-get :
    (env : Environment) (uuid : GattUuid) (p q p' q' : ℕ) (s : GattService) (c c' : DBusConnection)
    {ch : GattCharacteristic}
    → (create_characteristic env uuid p q s c).0 ≡ some ch
    → let s1 = (create_characteristic env uuid p q s c).1 in
      (get_characteristic uuid s1 ≡ some ch)
      × (create_characteristic env uuid p' q' s1 c' ≡ (some ch, s1, c'))
unfolding create_characteristic get_characteristic
create-get env uuid p q p' q' s c c' e =
    let found = created-lookup env uuid p q uuid.uuid s c refl e in
    let s1 = (create_characteristic_at env uuid.uuid uuid p q s c).1 in
    (found, create_kept env uuid p q p' q' uuid.uuid s s1 c c' e found)
