-- ===== src/Peripheral/Locals.antt =====
-- The local objects of the program: when they are used, and when they are destroyed.
use bluetooth_le.Prelude.{
  ℕ, zero, suc, ◌≡◌, refl, ap, ◌∙◌, Bool, true, false, List, [], ◌∷◌, ◌++◌, Option, none, some,
  if◌then◌else◌, Bool-cases, inl, inr, Text,
}
use bluetooth_le.Gio.{Outcome, returns, throws}
use bluetooth_le.Peripheral.{
  get_battery_level, Local, connection, server, application, Call, construct, destroy, connect,
  initialize, setup_dbus_interfaces, create_service, create_characteristic, set_read_callback,
  set_value, register_with_bluez, start_advertising, stop_advertising, unregister_from_bluez,
  shutdown, Step, require, perform, define, Answers, goes_on, call_of, defined, unwind, run_steps,
  main_loop, main_steps, main,
}

abbrev same : Local → Local → Bool
same connection connection = true
same server server = true
same application application = true
same _ _ = false

-- The object that a call belongs to; a service and a characteristic live in the application.
abbrev owner : Call → Option Local
owner connect = some connection
owner initialize = some server
owner start_advertising = some server
owner stop_advertising = some server
owner shutdown = some server
owner (construct l) = none
owner (destroy l) = none
owner _ = some application

abbrev is_live : Local → List Local → Bool
is_live l [] = false
is_live l (k ∷ locals) = let rest = is_live l locals in if same l k then true else rest

abbrev used : Option Local → List Local → Option (List Local)
used none locals = none
used (some l) locals = if is_live l locals then some locals else none

-- The objects that are live behind a call that ends in this way: `none` if it belongs to an object that is
-- not live, constructs one that is, or destroys another one than the latest.
pub next : Call → Outcome Bool → List Local → Option (List Local)
next (construct l) (returns ok) locals = if is_live l locals then none else some (l ∷ locals)
next (construct l) (throws what) locals = if is_live l locals then none else some locals
next (destroy l) o [] = none
next (destroy l) o (k ∷ locals) = if same l k then some locals else none
next c o locals = used (owner c) locals

abbrev next_of : Call → Outcome Bool → Option (List Local) → Option (List Local)
next_of c o none = none
next_of c o (some locals) = next c o locals

-- The objects that are live behind all calls, the latest of which is the first.
pub live : Answers → List Call → Option (List Local)
unfolding next
live answers [] = some []
live answers (c ∷ calls) = next_of c (answers calls c) (live answers calls)

unwind-live :
    (answers : Answers) (locals : List Local) (calls : List Call)
    → live answers calls ≡ some locals
    → live answers (unwind locals calls) ≡ some []
unfolding unwind live next
unwind-live answers [] calls e = e
unwind-live answers (connection ∷ locals) calls e =
    unwind-live answers locals (destroy connection ∷ calls) (rw e refl)
unwind-live answers (server ∷ locals) calls e =
    unwind-live answers locals (destroy server ∷ calls) (rw e refl)
unwind-live answers (application ∷ locals) calls e =
    unwind-live answers locals (destroy application ∷ calls) (rw e refl)

-- The steps fit behind each other: what they use has been defined before.
IsFit : List Step → List Local → Type 0
IsFit [] locals = Unit
IsFit (s ∷ rest) locals =
    ((ok : Bool) → next (call_of s) (returns ok) locals ≡ some (defined s locals))
    × ((what : Text) → next (call_of s) (throws what) locals ≡ some locals)
    × IsFit rest (defined s locals)

-- Behind the call of a step: the step's object is there if the program goes on, and not if it stops.
goes_on-next :
    (s : Step) (o : Outcome Bool) (locals : List Local) (rest : List Step)
    → IsFit (s ∷ rest) locals
    → next (call_of s) o locals ≡ some (if goes_on s o then defined s locals else locals)
unfolding IsFit
goes_on-next s (throws what) locals rest (runs, stops, fit) = stops what
goes_on-next (require c) (returns true) locals rest (runs, stops, fit) = runs true
goes_on-next (require c) (returns false) locals rest (runs, stops, fit) = runs false
goes_on-next (perform c) (returns ok) locals rest (runs, stops, fit) = runs ok
goes_on-next (define l) (returns ok) locals rest (runs, stops, fit) = runs ok

run_steps-live :
    (answers : Answers) (steps : List Step) (locals : List Local) (calls : List Call)
    → IsFit steps locals
    → live answers calls ≡ some locals
    → live answers (run_steps answers steps locals calls).1 ≡ some []
unfolding run_steps IsFit live
run_steps-live answers [] locals calls fit e = unwind-live answers locals calls e
run_steps-live answers (s ∷ rest) locals calls fit e =
    let o = answers calls (call_of s) in
    let step = ap (next_of (call_of s) o) e ∙ goes_on-next s o locals rest fit in
    elim (Bool-cases (goes_on s o)) [
      | inl yes_on ↦ rw yes_on (
          run_steps-live answers rest (defined s locals) (call_of s ∷ calls) fit.2
            (step ∙ rw yes_on refl))
      | inr stops ↦ rw stops (unwind-live answers locals (call_of s ∷ calls) (step ∙ rw stops refl))
    ]

abbrev all_locals : List Local
all_locals = application ∷ server ∷ connection ∷ []

loop-IsFit :
    (level rounds : ℕ) (rest : List Step)
    → IsFit rest all_locals
    → IsFit (main_loop level rounds ++ rest) all_locals
unfolding IsFit main_loop next
loop-IsFit level zero rest fit = fit
loop-IsFit level (suc rounds) rest fit =
    (λ ok. refl, λ what. refl, loop-IsFit (get_battery_level level) rounds rest fit)

end-IsFit :
    IsFit
      (perform stop_advertising ∷ perform unregister_from_bluez ∷ perform shutdown ∷ [])
      all_locals
unfolding IsFit next
end-IsFit = (λ ok. refl, λ what. refl, (λ ok. refl, λ what. refl, (λ ok. refl, λ what. refl, tt)))

-- The steps on the application, and those before them.
application-IsFit :
    (rest : List Step)
    → IsFit rest all_locals
    → IsFit
        (require setup_dbus_interfaces
          ∷ require create_service
          ∷ require create_characteristic
          ∷ perform set_read_callback
          ∷ perform (set_value (100 ∷ []))
          ∷ require register_with_bluez
          ∷ require start_advertising
          ∷ rest)
        all_locals
unfolding IsFit next
application-IsFit rest fit = (
  λ ok. refl,
  λ what. refl,
  (
    λ ok. refl,
    λ what. refl,
    (
      λ ok. refl,
      λ what. refl,
      (
        λ ok. refl,
        λ what. refl,
        (λ ok. refl, λ what. refl, (λ ok. refl, λ what. refl, (λ ok. refl, λ what. refl, fit))),
      ),
    ),
  ),
)

steps-IsFit : (level rounds : ℕ) → IsFit (main_steps level rounds) []
unfolding IsFit main_steps next
steps-IsFit level rounds =
    let fit = application-IsFit _ (loop-IsFit level rounds _ end-IsFit) in
    (
      λ ok. refl,
      λ what. refl,
      (
        λ ok. refl,
        λ what. refl,
        (λ ok. refl, λ what. refl, (λ ok. refl, λ what. refl, (λ ok. refl, λ what. refl, fit))),
      ),
    )

-- Whatever the calls answer, and however often the loop runs: each call of `main` is of an object whose
-- constructor has returned and whose destructor has not run, no object is constructed twice, and when
-- `main` returns, by whatever way, the destructors of exactly those objects have run whose constructors
-- had returned, each once and the latest object's first.
pub main-live :
    (answers : Answers) (level rounds : ℕ) → live answers (main answers level rounds).1 ≡ some []
unfolding main live
main-live answers level rounds =
    run_steps-live answers (main_steps level rounds) [] [] (steps-IsFit level rounds) refl
