-- ===== src/Gatt/Service.antt =====
-- src/GattService.cpp with the mutex of its map, `characteristicsMutex`, which is the only one that
-- these functions lock: the mutex of a new characteristic is known to no other thread yet.
pub mod Serial
pub mod Given
pub mod Unique
pub mod Tests
use bluetooth_le.Prelude.{
  ℕ, Bool, true, false, List, [], ◌∷◌, Option, none, some, Text, if◌then◌else◌,
}
use bluetooth_le.Gio.{Value, Environment}
use bluetooth_le.Uuid.{GattUuid}
use bluetooth_le.Connection.{DBusConnection}
use bluetooth_le.Threads.{Program, return, ◌>>=◌, ◌>>◌, guarded, get, modify, change}
use bluetooth_le.Gatt.Records.{GattCharacteristic, GattService}
use bluetooth_le.Gatt.Create
use bluetooth_le.Gatt.Create.{lookup, cleaned}

-- What a call has returned.
pub data Answer : Type 0 where
  characteristic : Option GattCharacteristic → Answer
  -- a reference to the map, which the caller reads when the mutex is free again
  characteristics : Answer
  paths : Option Value → Answer

-- `answers` are those of all calls, the latest first.
pub record Shared : Type 0 where
  pub service : GattService
  pub connection : DBusConnection
  pub answers : List Answer

abbrev pub Code : Type 0 → Type 0
Code A = Program Shared A

abbrev pub characteristics_mutex : ℕ
characteristics_mutex = 0

pub data Operation : Type 0 where
  create_characteristic : GattUuid → ℕ → ℕ → Operation
  get_characteristic : GattUuid → Operation
  get_characteristics get_characteristics_property : Operation

abbrev pub answer : Answer → Code (Unit {0})
answer a = modify (λ s. record s { answers = a ∷ s.answers })

abbrev is_empty : Text → Bool
is_empty [] = true
is_empty (x ∷ key) = false

unfoldable pub is_refused : Operation → Bool
is_refused (create_characteristic uuid properties permissions) = is_empty uuid.uuid
is_refused _ = false

-- The calls that lock the mutex.
unfoldable pub accepted : List Operation → List Operation
unfolding is_refused
accepted [] = []
accepted (op ∷ ops) = let rest = accepted ops in if is_refused op then rest else op ∷ rest

module _ (env : Environment) where
  -- What `createCharacteristic` does with what it finds under the UUID.
  unfoldable pub characteristic_found :
      Text → GattUuid → ℕ → ℕ → Option GattCharacteristic → Code (Option GattCharacteristic)
  unfolding cleaned Create.add_characteristic
  characteristic_found key uuid properties permissions (some ch) = return (some ch)
  characteristic_found key uuid properties permissions none = do
    modify (λ s. record s {
      service = record s.service { characteristics = cleaned key s.service.characteristics };
    })
    change (λ s.
        let (ch, service, c) =
          Create.add_characteristic env uuid properties permissions s.service s.connection in
        (ch, record s { service = service; connection = c }))

  -- `createCharacteristic`, by the UUID as a text.
  unfoldable pub create_at : Text → GattUuid → ℕ → ℕ → Code (Option GattCharacteristic)
  unfolding characteristic_found lookup
  create_at [] uuid properties permissions = return none
  create_at (x ∷ key) uuid properties permissions =
      get (λ s. lookup (x ∷ key) s.service.characteristics)
      >>= characteristic_found (x ∷ key) uuid properties permissions

  -- The functions without their mutex.
  unfoldable pub body : Operation → Code (Unit {0})
  unfolding create_at Create.get_characteristic Create.get_characteristics_property
  body (create_characteristic uuid properties permissions) =
      create_at uuid.uuid uuid properties permissions >>= λ made. answer (characteristic made)
  body (get_characteristic uuid) =
      get (λ s. Create.get_characteristic uuid s.service) >>= λ found. answer (characteristic found)
  body get_characteristics = answer characteristics
  body get_characteristics_property =
      get (λ s. Create.get_characteristics_property env s.service) >>= λ found. answer (paths found)

  -- One call. One with an empty UUID is refused before the mutex is locked, and its answer is not kept.
  unfoldable pub program : Operation → Code (Unit {0})
  unfolding guarded body is_refused
  program op = if is_refused op then return tt else guarded characteristics_mutex (body op)

  unfoldable pub script : List Operation → Code (Unit {0})
  unfolding program ◌>>◌
  script [] = return tt
  script (op ∷ ops) = program op >> script ops

  -- What the functions of Gatt/Create do.
  unfoldable pub effect : Operation → Shared → Shared
  unfolding Create.create_characteristic Create.get_characteristic
      Create.get_characteristics_property
  effect (create_characteristic uuid properties permissions) s =
      let (ch, service, c) =
        Create.create_characteristic env uuid properties permissions s.service s.connection in
      record { service = service; connection = c; answers = characteristic ch ∷ s.answers }
  effect (get_characteristic uuid) s = record s {
    answers = characteristic (Create.get_characteristic uuid s.service) ∷ s.answers;
  }
  effect get_characteristics s = record s { answers = characteristics ∷ s.answers }
  effect get_characteristics_property s = record s {
    answers = paths (Create.get_characteristics_property env s.service) ∷ s.answers;
  }

  -- The calls of a log one after the other; the latest is the first.
  unfoldable pub effects : List (ℕ × Operation) → Shared → Shared
  unfolding effect
  effects [] s = s
  effects ((i, op) ∷ log) s = effect op (effects log s)
