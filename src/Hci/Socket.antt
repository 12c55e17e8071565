-- ===== src/Hci/Socket.antt =====
-- include/HciSocket.h and src/HciSocket.cpp: the raw HCI socket. The loop that waits for data runs on
-- fuel, one for each round, since only the system's answers and another thread end it.
pub mod Descriptors
pub mod Waiting
use bluetooth_le.Prelude.{
  ℕ, ◌*◌, zero, suc, Bool, true, false, not, ◌&&◌, List, [], ◌∷◌, Option, none, some, Text, codes,
  if◌then◌else◌, ◌==◌, length, replicate,
}
use bluetooth_le.Hci.System.{
  System, Call, Calls, Selected, shell, pause, open_socket, device_info, bind, set_filter, close,
  select, recv, write, ready, failed, timed_out,
}

pub record HciSocket : Type 0 where
  pub fd : Option ℕ
  pub is_running : Bool
  pub calls : Calls

unfoldable pub new_socket : Calls → HciSocket
new_socket h = record { fd = none; is_running = true; calls = h }

unfoldable pub stop : HciSocket → HciSocket
stop s = record s { is_running = false }

abbrev pub call : Call → HciSocket → HciSocket
call e s = record s { calls = e ∷ s.calls }

abbrev pub is_connected : HciSocket → Bool
is_connected s = elim s.fd [ none ↦ false | some fd ↦ true ]

-- The error of `close` is logged only.
unfoldable pub disconnect : HciSocket → HciSocket
disconnect s = elim s.fd [ none ↦ s | some fd ↦ record (call (close fd) s) { fd = none } ]

abbrev status_command : Text
status_command = codes "hciconfig hci0 | grep 'UP RUNNING'"

abbrev down : Call
down = shell (codes "sudo hciconfig hci0 down")

abbrev up : Call
up = shell (codes "sudo hciconfig hci0 up")

abbrev reset : Call
reset = shell (codes "sudo hcitool cmd 0x03 0x0003")

-- The response before anything is received.
pub blank : Text
blank = replicate (64 * 1024) 0

-- What `recv` leaves in the response: an error, a closed socket, or the bytes.
pub received : Option Text → Bool × Text
received none = (false, [])
received (some []) = (false, [])
received (some (b ∷ bytes)) = (true, b ∷ bytes)

module _ (sys : System) where
  -- The controller is taken down and up if it is not running.
  pub prepare : HciSocket → HciSocket
  prepare s =
      let s1 = call (shell status_command) s in
      if sys.succeeds s.calls status_command
      then s1
      else call (pause 500) (call up (call (pause 100) (call down s1)))

  -- The same if the controller's information cannot be had, and then a reset in any case.
  pub reset_controller : HciSocket → HciSocket
  reset_controller s =
      let s1 = call (device_info s.fd) s in
      let s2 = if sys.informs s.calls s.fd then s1 else call (pause 100) (call up (call down s1)) in
      call (pause 100) (call reset s2)

  pub bind_socket : HciSocket → Bool × HciSocket
  unfolding disconnect
  bind_socket s =
      let s1 = call (bind s.fd) s in
      let s2 = call (set_filter s1.fd) s1 in
      if not (sys.binds s.calls s.fd)
      then (false, disconnect s1)
      else if not (sys.filters s1.calls s1.fd)
      then (false, disconnect s2)
      else (true, s2)

  -- The part behind the call of `socket`.
  pub connect_opened : Option ℕ → HciSocket → Bool × HciSocket
  unfolding reset_controller bind_socket
  connect_opened none s = (false, record (call (open_socket none) s) { fd = none })
  connect_opened (some fd) s =
      bind_socket (reset_controller (record (call (open_socket (some fd)) s) { fd = some fd }))

  unfoldable pub connect : HciSocket → Bool × HciSocket
  unfolding disconnect prepare connect_opened
  connect s = let s1 = prepare (disconnect s) in connect_opened (sys.socket s1.calls) s1

  -- The loop flag, which another thread may clear at any time.
  abbrev pub runs : HciSocket → Bool
  runs s = s.is_running && not (sys.stopped s.calls)

  -- `waitForDataOrShutdown`: no result yet where the fuel is used up.
  pub wait_for_data_or_shutdown : ℕ → HciSocket → Option Bool × HciSocket
  wait_for_data_or_shutdown zero s = (none, s)
  wait_for_data_or_shutdown (suc fuel) s = elim (runs s) [
    | false ↦ (some false, s)
    | true ↦ elim (sys.selects s.calls s.fd) [
      | ready ↦ (some true, call (select s.fd) s)
      | failed ↦ (some false, call (select s.fd) s)
      | timed_out ↦ wait_for_data_or_shutdown fuel (call (select s.fd) s)
    ]
  ]

  pub read_after : Option Bool × HciSocket → Option (Bool × Text) × HciSocket
  unfolding blank received
  read_after (none, s) = (none, s)
  read_after (some false, s) = (some (false, blank), s)
  read_after (some true, s) = (some (received (sys.receives s.calls s.fd)), call (recv s.fd) s)

  unfoldable pub read : ℕ → HciSocket → Option (Bool × Text) × HciSocket
  unfolding wait_for_data_or_shutdown read_after
  read fuel s = read_after (wait_for_data_or_shutdown fuel s)

  unfoldable pub write_bytes : Text → HciSocket → Bool × HciSocket
  write_bytes buffer s = (
    elim (sys.writes s.calls s.fd buffer) [
      | none ↦ false
      | some written ↦ written == length buffer
    ],
    call (write s.fd buffer) s,
  )
