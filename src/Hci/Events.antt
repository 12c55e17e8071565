-- ===== src/Hci/Events.antt =====
-- src/HciAdapter.cpp: the thread that reads events. A byte of the response that is read where the
-- vector has ended gives `out_of_bounds`; `|` of a low byte and a shifted high byte is their sum.
pub mod Bounds
pub mod Decoding
pub mod Loop
use bluetooth_le.Prelude.{
  ℕ, zero, suc, ◌+◌, ◌*◌, Bool, true, false, not, ◌&&◌, List, [], ◌∷◌, ◌++◌, Option, none, some,
  Text, codes, length, get_elem?, drop, ltb, ◌==◌, if◌then◌else◌,
}
use bluetooth_le.Utils.Hex.{hex8, hex16}
use bluetooth_le.Hci.System.{System, Calls}
use bluetooth_le.Hci.Socket.{HciSocket, is_connected, read}
use bluetooth_le.Hci.Packet.{
  cmd_set_powered, cmd_set_le, cmd_set_bredr, cmd_set_advertising, cmd_set_local_name,
}

-- What comes of a response: nothing where it is too short or its length byte is below 3, a line for the
-- log, or a read past its end.
pub data Outcome : Type 0 where
  too_short ignored out_of_bounds : Outcome
  logged : Text → Outcome

-- The names that the log gives to commands.
pub command_name : ℕ → Text
command_name opcode =
    if opcode == cmd_set_powered
    then codes "Set Powered"
    else if opcode == cmd_set_le
    then codes "Set LE Mode"
    else if opcode == cmd_set_bredr
    then codes "Set BR/EDR Mode"
    else if opcode == cmd_set_advertising
    then codes "Set Advertising"
    else if opcode == cmd_set_local_name
    then codes "Set Local Name"
    else codes "Unknown Command"

abbrev pub complete_text : ℕ → ℕ → Text
complete_text opcode status =
    codes "Command Complete: "
    ++ command_name opcode
    ++ codes " (opcode=0x"
    ++ hex16 opcode
    ++ codes ", status=0x"
    ++ hex8 status
    ++ codes ")"

abbrev pub status_text : ℕ → ℕ → Text
status_text opcode status =
    codes "Command Status: opcode=" ++ hex16 opcode ++ codes " status=" ++ hex8 status

-- `data[3]` if the length says that it is there.
abbrev complete_status : Text → ℕ → Option ℕ
complete_status parameters size = if ltb 3 size then get_elem? parameters 3 else some 0xff

-- The first three parameters, which are read once the length allows it.
pub with_three : Text → (ℕ → ℕ → ℕ → Outcome) → Outcome
with_three (a ∷ b ∷ c ∷ _) then_do = then_do a b c
with_three _ then_do = out_of_bounds

pub handle_command_complete : Text → ℕ → Outcome
unfolding with_three
handle_command_complete parameters size =
    if ltb size 3
    then ignored
    else with_three parameters (λ num_commands low high. elim (complete_status parameters size) [
      | none ↦ out_of_bounds
      | some status ↦ logged (complete_text (low + 256 * high) status)
    ])

pub handle_command_status : Text → ℕ → Outcome
unfolding with_three
handle_command_status parameters size =
    if ltb size 3
    then ignored
    else with_three parameters (λ status low high. logged (status_text (low + 256 * high) status))

unfoldable pub process_event : Text → Outcome
unfolding handle_command_complete handle_command_status
process_event (event_code ∷ parameter_length ∷ p ∷ parameters) =
    if event_code == 0x0e
    then handle_command_complete (p ∷ parameters) parameter_length
    else if event_code == 0x0f
    then handle_command_status (p ∷ parameters) parameter_length
    else logged (codes "Received unhandled HCI event: " ++ hex8 event_code)
process_event _ = too_short

-- What the read of a round adds to the outcomes, the latest first.
abbrev pub outcome_of : Bool × Text → List Outcome → List Outcome
outcome_of (false, response) done = done
outcome_of (true, response) done = process_event response ∷ done

-- The next round with the socket and the response of a read, if the read has ended.
abbrev pub after_read :
    Option (Bool × Text) × HciSocket
    → (HciSocket → Bool × Text → Option (HciSocket × List Outcome))
    → Option (HciSocket × List Outcome)
after_read (none, s) next = none
after_read (some response, s) next = next s response

-- `processEvents`; `cleared` says that another thread has called `HciAdapter::stop`. There is no result
-- where the rounds, or the fuel of a read, are used up.
module _ (sys : System) (cleared : Calls → Bool) where
  unfoldable pub process_events :
      ℕ → ℕ → HciSocket → List Outcome → Option (HciSocket × List Outcome)
  unfolding process_event read
  process_events zero fuel s done = none
  process_events (suc rounds) fuel s done = elim (not (cleared s.calls) && is_connected s) [
    | false ↦ some (s, done)
    | true ↦
        after_read (read sys fuel s)
          (λ s' response. process_events rounds fuel s' (outcome_of response done))
  ]
