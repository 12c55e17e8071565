-- ===== src/Hci/Tests.antt =====
-- The HCI layer at concrete inputs. In `lab` every call succeeds, no data come, and a write takes all
-- bytes; in `hung_up` the peer has closed the socket.
use bluetooth_le.Prelude.{
  ℕ, ◌<◌, ◌≡◌, ◌↔◌, refl, true, false, [], ◌∷◌, ◌++◌, none, some, codes, length, take, arith,
}
use bluetooth_le.Hci.System.{System, open_socket, ready, timed_out}
use bluetooth_le.Hci.Socket.{HciSocket, new_socket, connect}
use bluetooth_le.Hci.Socket.Descriptors.{IsBalanced, here, next, connected, Run-IsBalanced}
use bluetooth_le.Hci.Socket.Waiting.{after, IsQuiet}
use bluetooth_le.Hci.Packet.{name_field}
use bluetooth_le.Hci.Adapter.{HciAdapter, stop}
use bluetooth_le.Hci.Adapter.Stopping.{stop_pending_iff}
use bluetooth_le.Hci.Events.{out_of_bounds, logged, process_event, process_events}
use bluetooth_le.Hci.Events.Bounds.{needed, process_event_out_of_bounds_iff}
use bluetooth_le.Hci.Events.Decoding.{command_status, encode, report, process_event-encode}
use bluetooth_le.Hci.Events.Loop.{process_events_busy}
use bluetooth_le.Hci.Mgmt.{truncate_name, set_name}
use bluetooth_le.Hci.Mgmt.Names.{set_name_cut}
use bluetooth_le.Hci.Framing.{Sends}
use bluetooth_le.Hci.Commands.{IsInRange, discoverable, run, meaning, run-parse}
use bluetooth_le.Utils.Hex.{hex8}

abbrev lab : System
lab = record {
  succeeds = λ h command. true;
  socket = λ h. some 7;
  informs = λ h fd. true;
  binds = λ h fd. true;
  filters = λ h fd. true;
  closes = λ h fd. true;
  selects = λ h fd. timed_out;
  receives = λ h fd. some [];
  writes = λ h fd bytes. some (length bytes);
  stopped = λ h. false;
}

abbrev hung_up : System
hung_up = record lab { selects = λ h fd. ready }

abbrev opened : HciSocket
opened = record { fd = some 7; is_running = true; calls = open_socket (some 7) ∷ [] }

abbrev reading_adapter : HciAdapter
reading_adapter = record { socket = opened; is_running = true; reading = true }

run-parse_example :
    Sends lab (meaning (discoverable 1 300)) opened (run lab (discoverable 1 300) opened)
unfolding IsInRange
run-parse_example = run-parse lab (discoverable 1 300) opened (omega arith)

set_name_cut_example :
    Sends lab
      (0x0c13, take 4 (name_field 249 (truncate_name (codes "sensor"))))
      opened
      (set_name lab (codes "sensor") (codes "s") opened)
set_name_cut_example = set_name_cut lab (codes "sensor") (codes "s") opened

Run-IsBalanced_example : IsBalanced (connect lab (new_socket [])).1
Run-IsBalanced_example = Run-IsBalanced {sys = lab} [] refl (next here (connected refl))

stop_pending_iff_example :
    (stop lab 5 reading_adapter ≡ none) ↔ ((n : ℕ) → n < 5 → IsQuiet lab (after n opened))
stop_pending_iff_example = stop_pending_iff lab 5 reading_adapter refl

process_event_out_of_bounds_iff_example :
    (process_event (0x0f ∷ 4 ∷ 0 ∷ []) ≡ out_of_bounds) ↔ (length {A = ℕ} (0 ∷ []) < needed 0x0f 4)
process_event_out_of_bounds_iff_example = process_event_out_of_bounds_iff 0x0f 4 0 []

process_event-encode_example :
    (process_event (encode (command_status 1 0x0c03 0))
      ≡ logged (report (command_status 1 0x0c03 0)))
    × (process_event (0x04 ∷ encode (command_status 1 0x0c03 0))
        ≡ logged (codes "Received unhandled HCI event: " ++ hex8 0x04))
process_event-encode_example = process_event-encode (command_status 1 0x0c03 0)

process_events_busy_example : process_events hung_up (λ h. false) 9 2 opened [] ≡ none
process_events_busy_example =
    process_events_busy hung_up (λ h. false) 9 1 opened []
      (record { at_once = λ h fd. refl; nothing = λ h fd. refl; unstopped = λ h. refl }) (λ h. refl)
      refl refl
