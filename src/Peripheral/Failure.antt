-- ===== src/Peripheral/Failure.antt =====
-- What a run of steps has called when it ends, with a failure or without.
use bluetooth_le.Prelude.{
  ℕ, ◌≡◌, refl, sym, ap, subst, if◌then◌else◌, ◌∙◌, ◌⊎◌, inl, inr, Bool, true, false, not, ◌&&◌,
  List, [], ◌∷◌, ◌++◌, append_assoc, Bool-cases,
}
use bluetooth_le.Gio.{Outcome, returns, throws}
use bluetooth_le.Peripheral.{
  Local, Call, destroy, connect, initialize, setup_dbus_interfaces, create_service,
  create_characteristic, register_with_bluez, start_advertising, Step, require, perform, define,
  Answers, goes_on, call_of, defined, unwind, run_steps,
}

-- The program cannot do without these.
abbrev pub is_required : Call → Bool
is_required connect = true
is_required initialize = true
is_required setup_dbus_interfaces = true
is_required create_service = true
is_required create_characteristic = true
is_required register_with_bluez = true
is_required start_advertising = true
is_required _ = false

abbrev pub fails : Call → Outcome Bool → Bool
fails c (throws what) = true
fails c (returns ok) = is_required c && not ok

-- A call has been made behind the calls `h`, and has not failed.
abbrev pub Succeeded : Answers → List Call → Call → Type 0
Succeeded answers calls c =
    (h : List Call) × (front : List Call) × (calls ≡ front ++ c ∷ h)
    × (fails c (answers h c) ≡ false)

unfoldable pub AllSucceeded : Answers → List Call → List Call → Type 0
AllSucceeded answers calls [] = Unit
AllSucceeded answers calls (c ∷ rest) = Succeeded answers calls c × AllSucceeded answers calls rest

-- The calls end with one that failed and with destructors.
abbrev pub EndsFailed : Answers → List Call → Type 0
EndsFailed answers calls =
    (c : Call) × (h : List Call) × (locals : List Local) × (calls ≡ unwind locals (c ∷ h))
    × (fails c (answers h c) ≡ true)

-- A step looks at the answer exactly if the call is required.
unfoldable pub IsLooking : Step → Type 0
IsLooking (require c) = is_required c ≡ true
IsLooking (perform c) = is_required c ≡ false
IsLooking (define l) = Unit

unfoldable pub AreLooking : List Step → Type 0
AreLooking [] = Unit
AreLooking (s ∷ rest) = IsLooking s × AreLooking rest

fails-goes_on :
    (s : Step) (o : Outcome Bool) → IsLooking s → fails (call_of s) o ≡ not (goes_on s o)
unfolding IsLooking
fails-goes_on (require c) (throws what) looks = refl
fails-goes_on (perform c) (throws what) looks = refl
fails-goes_on (define l) (throws what) looks = refl
fails-goes_on (require c) (returns ok) looks = rw looks refl
fails-goes_on (perform c) (returns ok) looks = rw looks refl
fails-goes_on (define l) (returns ok) looks = refl

unwind-front :
    (locals : List Local) (calls : List Call)
    → (front : List Call) × (unwind locals calls ≡ front ++ calls)
unfolding unwind
unwind-front [] calls = ([], refl)
unwind-front (l ∷ locals) calls =
    let (front, e) = unwind-front locals (destroy l ∷ calls) in
    (front ++ destroy l ∷ [], e ∙ sym (append_assoc front (destroy l ∷ []) calls))

-- What has been called stays called.
run_steps-front :
    (answers : Answers) (steps : List Step) (locals : List Local) (calls : List Call)
    → (front : List Call) × ((run_steps answers steps locals calls).1 ≡ front ++ calls)
unfolding run_steps
run_steps-front answers [] locals calls = unwind-front locals calls
run_steps-front answers (s ∷ rest) locals calls =
    let c = call_of s in
    elim (Bool-cases (goes_on s (answers calls c))) [
      | inl yes_on ↦
          (let (front, e) = run_steps-front answers rest (defined s locals) (c ∷ calls) in
            (front ++ c ∷ [], rw yes_on (e ∙ sym (append_assoc front (c ∷ []) calls))))
      | inr stops ↦
          (let (front, e) = unwind-front locals (c ∷ calls) in
            (front ++ c ∷ [], rw stops (e ∙ sym (append_assoc front (c ∷ []) calls))))
    ]

unfoldable pub calls_of : List Step → List Call
calls_of [] = []
calls_of (s ∷ rest) = call_of s ∷ calls_of rest

-- Either every step's call has succeeded, or the last call has failed.
abbrev pub Ends : Answers → List Call → ℕ × List Call → Type 0
Ends answers needed r =
    ((r.0 ≡ 0) × AllSucceeded answers r.1 needed) ⊎ ((r.0 ≡ 1) × EndsFailed answers r.1)

-- One more step, which has succeeded.
succeeded-Ends :
    (answers : Answers) (needed : List Call) (c : Call) (calls front : List Call)
    (r : ℕ × List Call)
    → r.1 ≡ front ++ c ∷ calls
    → fails c (answers calls c) ≡ false
    → Ends answers needed r
    → Ends answers (c ∷ needed) r
unfolding AllSucceeded
succeeded-Ends answers needed c calls front r e good (inl (code, all)) =
    inl (code, ((calls, front, e, good), all))
succeeded-Ends answers needed c calls front r e good (inr failed) = inr failed

pub run_steps-Ends :
    (answers : Answers) (steps : List Step) (locals : List Local) (calls : List Call)
    → AreLooking steps
    → Ends answers (calls_of steps) (run_steps answers steps locals calls)
unfolding run_steps calls_of AllSucceeded AreLooking
run_steps-Ends answers [] locals calls looks = inl (refl, tt)
run_steps-Ends answers (s ∷ rest) locals calls (looks, rest_look) =
    let c = call_of s in
    let o = answers calls c in
    let after = run_steps answers rest (defined s locals) (c ∷ calls) in
    let stopped : ℕ × List Call = (1, unwind locals (c ∷ calls)) in
    let same = fails-goes_on s o looks in
    elim (Bool-cases (goes_on s o)) [
      | inl yes_on ↦
          (let (front, e) = run_steps-front answers rest (defined s locals) (c ∷ calls) in
            subst (λ go. Ends answers (c ∷ calls_of rest) (if go then after else stopped))
              (sym yes_on)
              (succeeded-Ends answers (calls_of rest) c calls front after e (same ∙ ap not yes_on)
                (run_steps-Ends answers rest (defined s locals) (c ∷ calls) rest_look)))
      | inr stops ↦
          subst (λ go. Ends answers (c ∷ calls_of rest) (if go then after else stopped)) (sym stops)
            (inr (refl, (c, calls, locals, refl, same ∙ ap not stops)))
    ]
