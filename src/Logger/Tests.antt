-- ===== src/Logger/Tests.antt =====
-- The logger at concrete entries.
use bluetooth_le.Prelude.{◌≡◌, List, [], ◌∷◌, none, some, codes, arith}
use bluetooth_le.Print.{c_str}
use bluetooth_le.Logger.{Severity, debug, error, empty}
use bluetooth_le.Logger.Receivers.{
  Action, registers, logs_c_string, logs_string, perform_all, last_registered, delivered, receiver,
  same, perform_all-delivered,
}

-- Receiver 1 is put in the place of receiver 0 between two entries; nothing receives the last one.
abbrev actions : List Action
actions =
    registers debug (some 0)
    ∷ logs_string debug (codes "start")
    ∷ registers debug (some 1)
    ∷ logs_c_string debug (codes "go")
    ∷ logs_string error (codes "stop")
    ∷ []

no_receiver : (sev : Severity) → receiver empty sev ≡ none
unfolding receiver
no_receiver _ = ground arith

perform_all-delivered_example :
    ((sev : Severity) → receiver (perform_all actions empty) sev ≡ last_registered sev actions none)
    × ((perform_all actions empty).entries ≡ (1, codes "go") ∷ (0, codes "start") ∷ [])
unfolding delivered c_str same
perform_all-delivered_example = perform_all-delivered actions empty (λ _. none) no_receiver
