-- ===== src/Gatt/Service/Unique.antt =====
-- A service gives out one characteristic for each UUID.
use mathlib.Core.Option.{none-ne-some, some_inj}
use mathlib.Core.List.{Memᴰ}
use bluetooth_le.Prelude.{
  ℕ, ◌≡◌, refl, sym, ap, subst, ◌∙◌, Bool, true, false, List, [], ◌∷◌, none, some, Text,
  Option-cases, inl, inr, find, codes, length,
}
use bluetooth_le.Gio.{Environment}
use bluetooth_le.Uuid.{GattUuid}
use bluetooth_le.Connection.{DBusConnection}
use bluetooth_le.Threads.{System, Reach, init}
use bluetooth_le.Gatt.Records.{GattCharacteristic, GattService, Object}
use bluetooth_le.Gatt.Setup.{setup_characteristic}
use bluetooth_le.Gatt.Create
use bluetooth_le.Gatt.Create.{lookup, cleaned}
use bluetooth_le.Gatt.Service.{
  Shared, Answer, characteristic, Operation, create_characteristic, get_characteristic,
  get_characteristics, get_characteristics_property, characteristics_mutex, script, effect, effects,
}
use bluetooth_le.Gatt.Service.Serial.{scripts-serial}
use bluetooth_le.Gatt.Service.Given.{
  given, IsUnique, answered, found-known, missing-find, added, cleaned-missing, empty-IsUnique,
}

-- A service and the answers so far.
abbrev Gives : Shared → Type 0
Gives s = IsUnique s.service.characteristics s.answers

-- A new characteristic is put into the map under a UUID that has no entry, or is not given out.
kept-Gives :
    (new : GattCharacteristic) (service : GattService) (answers : List Answer)
    (r : Bool × Object × DBusConnection)
    → IsUnique service.characteristics answers
    → find new.uuid.uuid service.characteristics ≡ none
    → (let (ch, service', c) = Create.keep_characteristic new service r in
        IsUnique service'.characteristics (characteristic ch ∷ answers))
unfolding Create.keep_characteristic given
kept-Gives new service answers (false, o, c) u missing =
    answered _ answers (characteristic none) u (λ ch e. elim (none-ne-some ch (sym e)) [ ])
kept-Gives new service answers (true, o, c) u missing =
    added service.characteristics answers (record new { object = o }) u missing

module _ (env : Environment) where
  create-Gives :
      (key : Text) (uuid : GattUuid) (properties permissions : ℕ) (service : GattService)
      (c : DBusConnection) (answers : List Answer)
      → key ≡ uuid.uuid
      → IsUnique service.characteristics answers
      → (let (ch, service', c') =
            Create.create_characteristic_at env key uuid properties permissions service c in
          IsUnique service'.characteristics (characteristic ch ∷ answers))
  unfolding Create.create_characteristic_at Create.add_characteristic Create.new_characteristic
      given
  create-Gives [] uuid properties permissions service c answers k u =
      answered _ answers (characteristic none) u (λ ch e. elim (none-ne-some ch (sym e)) [ ])
  create-Gives (x ∷ key) uuid properties permissions service c answers k u =
      elim (Option-cases (lookup (x ∷ key) service.characteristics)) [
        | inl missing ↦
            (let m = service.characteristics in
              let clean = record service { characteristics = cleaned (x ∷ key) m } in
              let path =
                Create.child_path service.object.path (codes "/char")
                  (length clean.characteristics) in
              let new =
                Create.new_characteristic path uuid service.object.path properties permissions in
              let absent = missing-find m answers (x ∷ key) u missing in
              let same = cleaned-missing (x ∷ key) m absent in
              let opened : Create.create_characteristic_at env (x ∷ key) uuid properties permissions
                    service c
                  ≡ Create.add_characteristic env uuid properties permissions clean c =
                rw (missing, Create.create_characteristic_at) refl in
              subst (λ r. IsUnique r.1.characteristics (characteristic r.0 ∷ answers)) (sym opened)
                (kept-Gives new clean answers (setup_characteristic env new.object c)
                  (subst (λ m'. IsUnique m' answers) (sym same) u)
                  (ap (λ q. find q (cleaned (x ∷ key) m)) (sym k)
                    ∙ ap (find (x ∷ key)) same
                    ∙ absent)))
        | inr (old, found) ↦
            (let opened : Create.create_characteristic_at env (x ∷ key) uuid properties permissions
                    service c
                  ≡ (some old, service, c) =
                rw (found, Create.create_characteristic_at) refl in
              subst (λ r. IsUnique r.1.characteristics (characteristic r.0 ∷ answers)) (sym opened)
                (answered _ answers (characteristic (some old)) u
                  (λ ch e. found-known _ answers (x ∷ key) u ch (found ∙ sym e))))
      ]

  effect-Gives : (op : Operation) (s : Shared) → Gives s → Gives (effect env op s)
  unfolding effect Create.create_characteristic Create.get_characteristic given
  effect-Gives (create_characteristic uuid properties permissions) s u =
      create-Gives uuid.uuid uuid properties permissions s.service s.connection s.answers refl u
  effect-Gives (get_characteristic uuid) s u =
      answered _ s.answers (characteristic (lookup uuid.uuid s.service.characteristics)) u
        (λ ch e. found-known _ s.answers uuid.uuid u ch (sym e))
  effect-Gives get_characteristics s u =
      answered _ s.answers _ u (λ ch e. elim (none-ne-some ch (sym e)) [ ])
  effect-Gives get_characteristics_property s u =
      answered _ s.answers _ u (λ ch e. elim (none-ne-some ch (sym e)) [ ])

  effects-Gives : (log : List (ℕ × Operation)) (s : Shared) → Gives s → Gives (effects env log s)
  unfolding effects
  effects-Gives [] s u = u
  effects-Gives ((i, op) ∷ log) s u = effect-Gives op _ (effects-Gives log s u)

  -- Any number of threads use a service that has no characteristic at first. In every state they reach
  -- in which its mutex is free, two characteristics of one UUID that any of them have been given, by
  -- `createCharacteristic` or by `getCharacteristic`, are the same.
  pub scripts_unique :
      (n : ℕ) (scripts : ℕ → List Operation) (s : Shared) (t : System Shared)
      (a b : GattCharacteristic)
      → s.service.characteristics ≡ []
      → s.answers ≡ []
      → Reach n (init s (λ i. script env (scripts i))) t
      → t.owner characteristics_mutex ≡ none
      → Memᴰ (characteristic (some a)) t.shared.answers
      → Memᴰ (characteristic (some b)) t.shared.answers
      → a.uuid.uuid ≡ b.uuid.uuid
      → a ≡ b
  scripts_unique n scripts s t a b empty unanswered r free ha hb same =
      let (log, shared, order) = scripts-serial env n scripts s t r free in
      let u : Gives t.shared = subst Gives (sym shared) (
        effects-Gives log s (
          subst (λ m. IsUnique m s.answers) (sym empty)
            (subst (λ l. IsUnique [] l) (sym unanswered) empty-IsUnique))) in
      some_inj.0 (
        some_inj.0 (
          sym (u.known a ha)
          ∙ ap (λ k. find k t.shared.service.characteristics) same
          ∙ u.known b hb))
