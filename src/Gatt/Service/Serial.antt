-- ===== src/Gatt/Service/Serial.antt =====
-- Threads that use a service.
use mathlib.Core.Path.{fun_ext}
use bluetooth_le.Prelude.{
  ℕ, ◌≡◌, refl, ap, subst, ◌∙◌, List, [], ◌∷◌, ◌++◌, Option, none, some, Text, Bool-cases, inl, inr,
}
use bluetooth_le.Gio.{Environment}
use bluetooth_le.Connection.{DBusConnection}
use bluetooth_le.Uuid.{GattUuid}
use bluetooth_le.Threads.{◌>>=◌, ◌>>◌, guarded, System, Reach, init}
use bluetooth_le.Threads.Alone.{run}
use bluetooth_le.Threads.Atomic.{
  IsPlain, bind-IsPlain, guarded-locking, locking, replay, mine, serial,
}
use bluetooth_le.Gatt.Records.{GattCharacteristic, GattService}
use bluetooth_le.Gatt.Create
use bluetooth_le.Gatt.Create.{lookup, cleaned}
use bluetooth_le.Gatt.Service.{
  Shared, Operation, answer, characteristic, characteristics_mutex, create_characteristic,
  get_characteristic, get_characteristics, get_characteristics_property, characteristic_found,
  create_at, body, program, script, effect, effects, is_refused, accepted,
}

module _ (env : Environment) where
  found-IsPlain :
      (key : Text) (uuid : GattUuid) (properties permissions : ℕ) (o : Option GattCharacteristic)
      → IsPlain (characteristic_found env key uuid properties permissions o)
  unfolding characteristic_found IsPlain ◌>>=◌ ◌>>◌
  found-IsPlain key uuid properties permissions (some ch) = tt
  found-IsPlain key uuid properties permissions none = λ s s'. tt

  create_at-IsPlain :
      (key : Text) (uuid : GattUuid) (properties permissions : ℕ)
      → IsPlain (create_at env key uuid properties permissions)
  unfolding create_at IsPlain ◌>>=◌
  create_at-IsPlain [] uuid properties permissions = tt
  create_at-IsPlain (x ∷ key) uuid properties permissions =
      λ s. found-IsPlain (x ∷ key) uuid properties permissions _

  body-IsPlain : (op : Operation) → IsPlain (body env op)
  unfolding body IsPlain ◌>>=◌
  body-IsPlain (create_characteristic uuid properties permissions) =
      bind-IsPlain _ _ (create_at-IsPlain uuid.uuid uuid properties permissions) (λ a s. tt)
  body-IsPlain (get_characteristic uuid) = λ s s'. tt
  body-IsPlain get_characteristics = λ s. tt
  body-IsPlain get_characteristics_property = λ s s'. tt

  found-run :
      (key : Text) (uuid : GattUuid) (properties permissions : ℕ) (o : Option GattCharacteristic)
      (s : Shared)
      → (run
          (characteristic_found env key uuid properties permissions o >>= λ made.
            answer (characteristic made))
          s).1
        ≡ (let (ch, service, c) =
              elim o as (λ _. Option GattCharacteristic × GattService × DBusConnection) [
                | some ch ↦ (some ch, s.service, s.connection)
                | none ↦
                    Create.add_characteristic env uuid properties permissions
                      (record s.service { characteristics = cleaned key s.service.characteristics })
                      s.connection
              ] in
            record { service = service; connection = c; answers = characteristic ch ∷ s.answers })
  unfolding characteristic_found run ◌>>=◌ ◌>>◌
  found-run key uuid properties permissions (some ch) s = refl
  found-run key uuid properties permissions none s = refl

  create-run :
      (key : Text) (uuid : GattUuid) (properties permissions : ℕ) (s : Shared)
      → (run
          (create_at env key uuid properties permissions >>= λ made. answer (characteristic made))
          s).1
        ≡ (let (ch, service, c) =
              Create.create_characteristic_at env key uuid properties permissions s.service
                s.connection in
            record { service = service; connection = c; answers = characteristic ch ∷ s.answers })
  unfolding create_at run ◌>>=◌ ◌>>◌ Create.create_characteristic_at
  create-run [] uuid properties permissions s = refl
  create-run (x ∷ key) uuid properties permissions s =
      found-run (x ∷ key) uuid properties permissions (lookup (x ∷ key) s.service.characteristics) s

  body-run : (op : Operation) (s : Shared) → (run (body env op) s).1 ≡ effect env op s
  unfolding body effect run ◌>>=◌ ◌>>◌ Create.create_characteristic
  body-run (create_characteristic uuid properties permissions) s =
      create-run uuid.uuid uuid properties permissions s
  body-run (get_characteristic uuid) s = refl
  body-run get_characteristics s = refl
  body-run get_characteristics_property s = refl

  script-locking : (ops : List Operation) → script env ops ≡ locking (body env) (accepted ops)
  unfolding script program accepted locking ◌>>◌ ◌>>=◌
  script-locking [] = refl
  script-locking (op ∷ ops) = elim (Bool-cases (is_refused op)) [
    | inl refused ↦ rw refused (script-locking ops)
    | inr taken ↦ rw taken (
        ap (λ p. guarded 0 (body env op) >> p) (script-locking ops)
        ∙ guarded-locking (body env) op (accepted ops))
  ]

  replay-effects :
      (log : List (ℕ × Operation)) (s : Shared) → replay (body env) log s ≡ effects env log s
  unfolding replay effects
  replay-effects [] s = refl
  replay-effects ((i, op) ∷ log) s =
      body-run op (replay (body env) log s) ∙ ap (effect env op) (replay-effects log s)

  -- Any number of threads call the functions of a service that lock its mutex. In every state they
  -- reach in which the mutex is free, the map, the connection and the answers are what the calls that
  -- have ended give one after the other, in some order in which those of each thread stand in their
  -- own order. Calls with an empty UUID, which lock nothing, are left out. The answer of getCharacteristics
  -- is only a reference to the map: what a caller reads through it once the mutex is free is no answer
  -- and may change under its hands.
  pub scripts-serial :
      (n : ℕ) (scripts : ℕ → List Operation) (s : Shared) (t : System Shared)
      → Reach n (init s (λ i. script env (scripts i))) t
      → t.owner characteristics_mutex ≡ none
      → (log : List (ℕ × Operation)) × (t.shared ≡ effects env log s)
        × ((i : ℕ) → (rest : List Operation) × ((mine i log ++ rest) ≡ accepted (scripts i)))
  scripts-serial n scripts s t r free =
      let same = fun_ext λ i. script-locking (scripts i) in
      let (log, shared, order) =
        serial (body env) body-IsPlain n s (λ i. accepted (scripts i)) t
          (subst (λ threads. Reach n (init s threads) t) same r) free in
      (log, shared ∙ replay-effects log s, order)
