-- ===== src/Hci/Events/Bounds.antt =====
-- src/HciAdapter.cpp: which events are read past their end.
use bluetooth_le.Prelude.{ℕ, ◌<◌, ◌≡◌, ◌↔◌, [], ◌∷◌, Text, length, ltb, ◌==◌, if◌then◌else◌, arith}
use bluetooth_le.Hci.Events.{out_of_bounds, process_event}

-- The number of parameters that the handler of an event needs, given its length byte.
pub needed : ℕ → ℕ → ℕ
needed event_code size =
    if ltb size 3
    then 0
    else if event_code == 0x0e
    then (if ltb 3 size then 4 else 3)
    else if event_code == 0x0f
    then 3
    else 0

-- An event with at least one parameter is read past its end exactly if fewer parameters follow than
-- its handler needs for the length byte of the event.
pub process_event_out_of_bounds_iff :
    (event_code size p : ℕ) (parameters : Text)
    → (process_event (event_code ∷ size ∷ p ∷ parameters) ≡ out_of_bounds)
      ↔ (length (p ∷ parameters) < needed event_code size)
unfolding process_event needed
process_event_out_of_bounds_iff event_code size p [] = ground arith
process_event_out_of_bounds_iff event_code size p (q ∷ []) = ground arith
process_event_out_of_bounds_iff event_code size p (q ∷ r ∷ []) = ground arith
process_event_out_of_bounds_iff event_code size p (q ∷ r ∷ t ∷ rest) = ground arith
