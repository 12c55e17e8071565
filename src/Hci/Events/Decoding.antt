-- ===== src/Hci/Events/Decoding.antt =====
-- src/HciAdapter.cpp: what the log says of events in the format of the Bluetooth specification.
use bluetooth_le.Prelude.{ℕ, ◌+◌, ◌*◌, ◌/◌, ◌%◌, ◌≡◌, refl, ap, [], ◌∷◌, ◌++◌, Text, codes, arith}
use bluetooth_le.Utils.Hex.{hex8}
use bluetooth_le.Hci.Events.{
  logged, process_event, handle_command_complete, handle_command_status, with_three, complete_text,
  status_text,
}

-- The two events that are handled, with the numbers of packets that the controller takes, the opcode
-- and the status. The order of the fields is that of the specification.
pub data Event : Type 0 where
  command_complete : ℕ → ℕ → ℕ → Event
  command_status : ℕ → ℕ → ℕ → Event

unfoldable pub encode : Event → Text
encode (command_complete packets opcode status) =
    0x0e ∷ 4 ∷ packets ∷ opcode % 256 ∷ opcode / 256 ∷ status ∷ []
encode (command_status packets opcode status) =
    0x0f ∷ 4 ∷ status ∷ packets ∷ opcode % 256 ∷ opcode / 256 ∷ []

-- What the log is told: of a completed command its opcode and status, but of the status of a command,
-- in place of the opcode, the number of packets and, as the high byte, the low byte of the opcode.
unfoldable pub report : Event → Text
report (command_complete packets opcode status) = complete_text opcode status
report (command_status packets opcode status) = status_text (packets + 256 * (opcode % 256)) status

-- Of an event that is encoded as the specification says, the log is told the opcode and the status
-- if a command was completed; for the status of a command it is told the status and, in place of
-- the opcode, the number of packets with the low byte of the opcode above it. The same event behind
-- the packet type 0x04 is logged as an unhandled event 0x04.
pub process_event-encode :
    (e : Event)
    → (process_event (encode e) ≡ logged (report e))
      × (process_event (0x04 ∷ encode e)
          ≡ logged (codes "Received unhandled HCI event: " ++ hex8 0x04))
unfolding process_event encode report handle_command_complete handle_command_status with_three
process_event-encode (command_complete packets opcode status) =
    (ap (λ n. logged (complete_text n status)) (omega arith), refl)
process_event-encode (command_status packets opcode status) = (refl, refl)
