-- ===== src/Peripheral/Tests.antt =====
-- The program at concrete answers.
use bluetooth_le.Prelude.{◌≡◌, refl, true, false, [], ◌∷◌, some, ℕ, List, ◌⊎◌}
use bluetooth_le.Gio.{returns}
use bluetooth_le.Peripheral.{
  connection, server, application, construct, destroy, connect, initialize, setup_dbus_interfaces,
  create_service, create_characteristic, set_read_callback, set_value, register_with_bluez,
  start_advertising, Answers, Call, main,
}
use bluetooth_le.Peripheral.Locals.{live}
use bluetooth_le.Peripheral.Failure.{AllSucceeded, EndsFailed}
use bluetooth_le.Peripheral.Exit.{wanted, main-exits}

-- The advertisement is refused.
abbrev silent : Answers
silent calls start_advertising = returns false
silent calls _ = returns true

-- The application stays registered with BlueZ, and ends.
advertising_refused : main silent 100 3 ≡ (
  1,
  destroy connection
      ∷ destroy server
      ∷ destroy application
      ∷ start_advertising
      ∷ register_with_bluez
      ∷ set_value (100 ∷ [])
      ∷ set_read_callback
      ∷ create_characteristic
      ∷ create_service
      ∷ setup_dbus_interfaces
      ∷ construct application
      ∷ initialize
      ∷ construct server
      ∷ connect
      ∷ construct connection
      ∷ [],
)
unfolding main
advertising_refused = refl

abbrev ended : ℕ × List Call
ended = main silent 100 3

main-exits_example :
    (((ended.0 ≡ 0) × AllSucceeded silent ended.1 wanted)
      ⊎ ((ended.0 ≡ 1) × EndsFailed silent ended.1))
    × (live silent ended.1 ≡ some [])
main-exits_example = main-exits silent 100 3
