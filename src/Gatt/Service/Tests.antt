-- ===== src/Gatt/Service/Tests.antt =====
-- Two threads that create the characteristic of one UUID.
use bluetooth_le.Prelude.{ℕ, zero, suc, ◌≡◌, refl, List, [], ◌∷◌, ◌++◌, text_eq, some}
use bluetooth_le.Gatt.Create.{new_service, new_characteristic}
use bluetooth_le.Gatt.Setup.{setup_characteristic}
use bluetooth_le.Gio.Sample.{bus}
use bluetooth_le.Threads.{System, init, start}
use bluetooth_le.Threads.Alone.{drive, drive-Reach, picks}
use bluetooth_le.Threads.Atomic.{mine}
use bluetooth_le.Gatt.Tests.{battery_service, battery_uuid, idle, level}
use bluetooth_le.Gatt.Service.{
  Shared, Answer, characteristic, Operation, create_characteristic, get_characteristic, script,
  effects, accepted,
}
use bluetooth_le.Gatt.Service.Serial.{scripts-serial}
use bluetooth_le.Gatt.Service.Unique.{scripts_unique}
use bluetooth_le.Gatt.Records.{GattCharacteristic}
use mathlib.Core.List.Memᴰ.{head, tail}

abbrev begun : Shared
begun = record { service = battery_service; connection = idle; answers = [] }

abbrev calls : ℕ → List Operation
calls zero = create_characteristic battery_uuid 0x12 0x01 ∷ get_characteristic battery_uuid ∷ []
calls (suc i) = create_characteristic battery_uuid 0x02 0x01 ∷ []

abbrev threads : System Shared
threads = init begun (λ i. script bus (calls i))

-- Both wait at the mutex while the other one holds it.
abbrev turns : List ℕ
turns = 1 ∷ 0 ∷ 1 ∷ 1 ∷ 0 ∷ 1 ∷ 1 ∷ 1 ∷ 0 ∷ 1 ∷ 0 ∷ 0 ∷ 0 ∷ []

scripts-serial_example :
    (log : List (ℕ × Operation)) × ((drive turns threads).shared ≡ effects bus log begun)
    × ((i : ℕ) → (rest : List Operation) × ((mine i log ++ rest) ≡ accepted (calls i)))
unfolding picks drive script new_service setup_characteristic text_eq
scripts-serial_example =
    scripts-serial bus 2 calls begun (drive turns threads)
      (drive-Reach 2 turns threads threads refl start) refl

abbrev older : List Answer → List Answer
older (a ∷ answers) = answers
older [] = []

-- The characteristic that the latest answer gives out, where it does.
abbrev given : List Answer → GattCharacteristic
given (characteristic (some ch) ∷ answers) = ch
given _ = level

abbrev answers : List Answer
answers = (drive turns threads).shared.answers

scripts_unique_example : given answers ≡ given (older answers)
unfolding picks drive script new_service setup_characteristic text_eq new_characteristic
scripts_unique_example =
    scripts_unique bus 2 calls begun (drive turns threads) (given answers) (given (older answers))
      refl refl (drive-Reach 2 turns threads threads refl start) refl (head refl) (tail (head refl))
      refl
