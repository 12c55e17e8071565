-- ===== src/Peripheral.antt =====
-- src/main.cpp: a peripheral with one battery service. The classes that it uses have other members in
-- their headers than those it calls, so the answers of the calls are a parameter: each returns a
-- Boolean, or throws. `main` leaves through the destructors of its local objects on every way out; the
-- service and the characteristic, which it shares with the application, end with the application.
pub mod Battery
pub mod Locals
pub mod Failure
pub mod Exit
mod Tests
use bluetooth_le.Prelude.{
  ℕ, zero, suc, ◌-◌, Bool, true, false, List, [], ◌∷◌, ◌++◌, Text, ltb, if◌then◌else◌,
}
use bluetooth_le.Gio.{Outcome, returns, throws}

-- `getBatteryLevel`, whose static variable `level` is the argument: its new value is the answer. It
-- stays between 10 and 100, so the byte does not wrap around.
unfoldable pub get_battery_level : ℕ → ℕ
get_battery_level level = if ltb 10 level then level - 1 else 100

-- The local objects of `main`.
pub data Local : Type 0 where
  connection server application : Local

pub data Call : Type 0 where
  construct destroy : Local → Call
  connect initialize setup_dbus_interfaces create_service create_characteristic : Call
  set_read_callback : Call
  set_value : Text → Call
  register_with_bluez start_advertising stop_advertising unregister_from_bluez shutdown : Call

-- A call whose failure ends the program, or one whose answer is not looked at.
pub data Step : Type 0 where
  require perform : Call → Step
  -- a local object is defined
  define : Local → Step

-- The loop: the level goes down and is set as the value, once in each round.
unfoldable pub main_loop : ℕ → ℕ → List Step
unfolding get_battery_level
main_loop level zero = []
main_loop level (suc rounds) =
    let next = get_battery_level level in perform (set_value (next ∷ [])) ∷ main_loop next rounds

-- What `main` does when a signal ends its loop after a number of rounds. `level` is the static variable
-- at the start of the loop.
unfoldable pub main_steps : ℕ → ℕ → List Step
unfolding main_loop
main_steps level rounds =
    define connection
      ∷ require connect
      ∷ define server
      ∷ require initialize
      ∷ define application
      ∷ require setup_dbus_interfaces
      ∷ require create_service
      ∷ require create_characteristic
      ∷ perform set_read_callback
      ∷ perform (set_value (100 ∷ []))
      ∷ require register_with_bluez
      ∷ require start_advertising
      ∷ main_loop level rounds
    ++ perform stop_advertising ∷ perform unregister_from_bluez ∷ perform shutdown ∷ []

-- How a call ends, by the calls before it, the latest first.
abbrev pub Answers : Type 0
Answers = List Call → Call → Outcome Bool

abbrev pub goes_on : Step → Outcome Bool → Bool
goes_on _ (throws what) = false
goes_on (require c) (returns ok) = ok
goes_on (perform c) (returns ok) = true
goes_on (define l) (returns ok) = true

abbrev pub call_of : Step → Call
call_of (require c) = c
call_of (perform c) = c
call_of (define l) = construct l

-- The local objects behind a step, the latest first.
abbrev pub defined : Step → List Local → List Local
defined (define l) locals = l ∷ locals
defined _ locals = locals

-- The destructors, that of the latest object first.
unfoldable pub unwind : List Local → List Call → List Call
unwind [] calls = calls
unwind (l ∷ locals) calls = unwind locals (destroy l ∷ calls)

-- The exit code and the calls, the latest first. An object whose constructor throws is not destroyed.
unfoldable pub run_steps : Answers → List Step → List Local → List Call → ℕ × List Call
unfolding unwind
run_steps answers [] locals calls = (0, unwind locals calls)
run_steps answers (s ∷ rest) locals calls =
    let c = call_of s in
    let after = run_steps answers rest (defined s locals) (c ∷ calls) in
    if goes_on s (answers calls c) then after else (1, unwind locals (c ∷ calls))

unfoldable pub main : Answers → ℕ → ℕ → ℕ × List Call
unfolding run_steps main_steps
main answers level rounds = run_steps answers (main_steps level rounds) [] []
