-- ===== src/Peripheral/Exit.antt =====
-- The exit code of the program and the calls it has made.
use bluetooth_le.Prelude.{ℕ, zero, suc, ◌≡◌, refl, ◌⊎◌, inl, inr, List, [], ◌∷◌, ◌++◌, some}
use bluetooth_le.Peripheral.{
  get_battery_level, Call, connect, initialize, setup_dbus_interfaces, create_service,
  create_characteristic, register_with_bluez, start_advertising, stop_advertising,
  unregister_from_bluez, shutdown, Step, Answers, main_loop, main_steps, main,
}
use bluetooth_le.Peripheral.Locals.{live, main-live}
use bluetooth_le.Peripheral.Failure.{
  AllSucceeded, EndsFailed, IsLooking, AreLooking, calls_of, run_steps-Ends,
}

loop-AreLooking :
    (level rounds : ℕ) (rest : List Step)
    → AreLooking rest
    → AreLooking (main_loop level rounds ++ rest)
unfolding AreLooking IsLooking main_loop
loop-AreLooking level zero rest looks = looks
loop-AreLooking level (suc rounds) rest looks =
    (refl, loop-AreLooking (get_battery_level level) rounds rest looks)

main_steps-AreLooking : (level rounds : ℕ) → AreLooking (main_steps level rounds)
unfolding AreLooking IsLooking main_steps
main_steps-AreLooking level rounds = (
  tt,
  (
    refl,
    (
      tt,
      (
        refl,
        (
          tt,
          (
            refl,
            (
              refl,
              (
                refl,
                (
                  refl,
                  (refl, (refl, (refl, loop-AreLooking level rounds _ (refl, (refl, (refl, tt)))))),
                ),
              ),
            ),
          ),
        ),
      ),
    ),
  ),
)

-- The calls behind the loop.
behind_loop :
    (answers : Answers) (calls : List Call) (level rounds : ℕ) (rest : List Step)
    → AllSucceeded answers calls (calls_of (main_loop level rounds ++ rest))
    → AllSucceeded answers calls (calls_of rest)
unfolding AllSucceeded calls_of main_loop
behind_loop answers calls level zero rest all = all
behind_loop answers calls level (suc rounds) rest (first, all) =
    behind_loop answers calls (get_battery_level level) rounds rest all

-- The calls that a run without a failure makes, but for those that set callbacks and values.
abbrev pub wanted : List Call
wanted =
    connect ∷ initialize ∷ setup_dbus_interfaces ∷ create_service ∷ create_characteristic
    ∷ register_with_bluez ∷ start_advertising ∷ stop_advertising ∷ unregister_from_bluez ∷ shutdown
    ∷ []

wanted-AllSucceeded :
    (answers : Answers) (calls : List Call) (level rounds : ℕ)
    → AllSucceeded answers calls (calls_of (main_steps level rounds))
    → AllSucceeded answers calls wanted
unfolding AllSucceeded calls_of main_steps
wanted-AllSucceeded answers calls level rounds
      (
        new_connection,
        (
          connected,
          (
            new_server,
            (
              initialized,
              (
                new_application,
                (
                  is_set_up,
                  (
                    service,
                    (characteristic, (callback, (value, (registered, (advertised, rest))))),
                  ),
                ),
              ),
            ),
          ),
        ),
      ) =
    let (stopped, (left, (shut, none_left))) = behind_loop answers calls level rounds _ rest in
    (
      connected,
      (
        initialized,
        (
          is_set_up,
          (service, (characteristic, (registered, (advertised, (stopped, (left, (shut, tt))))))),
        ),
      ),
    )

-- Whatever the calls answer, and however often the loop runs, `main` ends in one of two ways. Either it
-- returns 0, and it has connected, initialized the server, set the application up, created the service
-- and the characteristic, registered with BlueZ and started to advertise, each with the answer true, and
-- has called stopAdvertising, unregisterFromBluez and shutdown. Or it returns 1, and its last call but
-- for destructors has thrown, or is one of the first seven named and has answered false: nothing is
-- called behind it to undo the registration or the advertisement. On both ways each call is of a local
-- object whose constructor has returned and whose destructor has not run, and in the end the destructors
-- of exactly those objects have run, each once and the latest object's first.
pub main-exits :
    (answers : Answers) (level rounds : ℕ)
    → let (code, calls) = main answers level rounds in
      (((code ≡ 0) × AllSucceeded answers calls wanted) ⊎ ((code ≡ 1) × EndsFailed answers calls))
      × (live answers calls ≡ some [])
unfolding main
main-exits answers level rounds = (
  elim (run_steps-Ends answers (main_steps level rounds) [] []
      (main_steps-AreLooking level rounds)) [
        | inl (code, all) ↦ inl (code, wanted-AllSucceeded answers _ level rounds all)
        | inr failed ↦ inr failed
      ],
  main-live answers level rounds,
)
