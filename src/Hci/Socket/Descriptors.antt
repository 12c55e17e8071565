-- ===== src/Hci/Socket/Descriptors.antt =====
-- The socket's descriptors: each that is opened is closed, but the one that is held.
use bluetooth_le.Prelude.{
  ℕ, zero, suc, ◌+◌, ◌≡◌, sym, ◌∙◌, subst, Bool, true, false, [], ◌∷◌, Option, none, some, Text,
  arith, if◌then◌else◌,
}
use bluetooth_le.Hci.System.{System, Call, Calls, open_socket, close, select}
use bluetooth_le.Hci.Socket.{
  HciSocket, new_socket, call, is_connected, disconnect, prepare, reset_controller, bind_socket,
  connect_opened, connect, stop, wait_for_data_or_shutdown, read, read_after, write_bytes,
}

abbrev is_open_socket : Call → Bool
is_open_socket (open_socket (some fd)) = true
is_open_socket _ = false

abbrev is_close : Call → Bool
is_close (close fd) = true
is_close _ = false

-- How many sockets were opened, and how many closed.
abbrev pub opens : Calls → ℕ
opens [] = 0
opens (e ∷ h) = if is_open_socket e then suc (opens h) else opens h

abbrev pub closes : Calls → ℕ
closes [] = 0
closes (e ∷ h) = if is_close e then suc (closes h) else closes h

abbrev pub held : HciSocket → ℕ
held s = if is_connected s then 1 else 0

-- Every socket that was opened has been closed, but the one that is held.
abbrev pub IsBalanced : HciSocket → Type 0
IsBalanced s = opens s.calls ≡ closes s.calls + held s

disconnect-IsBalanced : (s : HciSocket) → IsBalanced s → IsBalanced (disconnect s)
unfolding disconnect
disconnect-IsBalanced s h = ground arith

disconnect-held : (s : HciSocket) → held (disconnect s) ≡ 0
unfolding disconnect
disconnect-held s = ground arith

module _ (sys : System) where
  prepare-IsBalanced : (s : HciSocket) → IsBalanced s → IsBalanced (prepare sys s)
  unfolding prepare
  prepare-IsBalanced s h = ground arith

  prepare-held : (s : HciSocket) → held (prepare sys s) ≡ held s
  unfolding prepare
  prepare-held s = ground arith

  reset-IsBalanced : (s : HciSocket) → IsBalanced s → IsBalanced (reset_controller sys s)
  unfolding reset_controller
  reset-IsBalanced s h = ground arith

  bind-IsBalanced : (s : HciSocket) → IsBalanced s → IsBalanced (bind_socket sys s).1
  unfolding bind_socket
  bind-IsBalanced s h = ground arith

  opened-IsBalanced :
      (o : Option ℕ) (s : HciSocket)
      → IsBalanced s
      → held s ≡ 0
      → IsBalanced (connect_opened sys o s).1
  unfolding connect_opened
  opened-IsBalanced none s h e = ground arith
  opened-IsBalanced (some fd) s h e =
      bind-IsBalanced
        (reset_controller sys (record (call (open_socket (some fd)) s) { fd = some fd }))
        (reset-IsBalanced (record (call (open_socket (some fd)) s) { fd = some fd }) (ground arith))

  connect-IsBalanced : (s : HciSocket) → IsBalanced s → IsBalanced (connect sys s).1
  unfolding connect
  connect-IsBalanced s h =
      let s1 = prepare sys (disconnect s) in
      opened-IsBalanced (sys.socket s1.calls) s1
        (prepare-IsBalanced (disconnect s) (disconnect-IsBalanced s h))
        (prepare-held (disconnect s) ∙ disconnect-held s)

  wait-IsBalanced :
      (fuel : ℕ) (s : HciSocket)
      → IsBalanced s
      → IsBalanced (wait_for_data_or_shutdown sys fuel s).1
  unfolding wait_for_data_or_shutdown
  wait-IsBalanced zero s h = h
  wait-IsBalanced (suc fuel) s h =
      ground (arith, wait-IsBalanced fuel (call (select s.fd) s) (omega (arith, h)))

  after-IsBalanced :
      (r : Option Bool × HciSocket) → IsBalanced r.1 → IsBalanced (read_after sys r).1
  unfolding read_after
  after-IsBalanced (none, s) h = h
  after-IsBalanced (some false, s) h = h
  after-IsBalanced (some true, s) h = h

  read-IsBalanced : (fuel : ℕ) (s : HciSocket) → IsBalanced s → IsBalanced (read sys fuel s).1
  unfolding read
  read-IsBalanced fuel s h =
      after-IsBalanced (wait_for_data_or_shutdown sys fuel s) (wait-IsBalanced fuel s h)

  write-IsBalanced : (b : Text) (s : HciSocket) → IsBalanced s → IsBalanced (write_bytes sys b s).1
  unfolding write_bytes
  write-IsBalanced b s h = ground arith

-- What can happen to a socket.
pub data Step (sys : System) (s s' : HciSocket) : Type 0 where
  connected : s' ≡ (connect sys s).1 → Step sys s s'
  disconnected : s' ≡ disconnect s → Step sys s s'
  was_stopped : s' ≡ stop s → Step sys s s'
  was_read : (fuel : ℕ) → s' ≡ (read sys fuel s).1 → Step sys s s'
  written : (b : Text) → s' ≡ (write_bytes sys b s).1 → Step sys s s'

pub data Run (sys : System) (s : HciSocket) : HciSocket → Type 0 where
  here : Run sys s s
  next : {s1 s2 : HciSocket} → Run sys s s1 → Step sys s1 s2 → Run sys s s2

Step-IsBalanced : (sys : System) (s s' : HciSocket) → Step sys s s' → IsBalanced s → IsBalanced s'
unfolding stop
Step-IsBalanced sys s s' (connected e) h = subst IsBalanced (sym e) (connect-IsBalanced sys s h)
Step-IsBalanced sys s s' (disconnected e) h = subst IsBalanced (sym e) (disconnect-IsBalanced s h)
Step-IsBalanced sys s s' (was_stopped e) h = subst IsBalanced (sym e) h
Step-IsBalanced sys s s' (was_read fuel e) h =
    subst IsBalanced (sym e) (read-IsBalanced sys fuel s h)
Step-IsBalanced sys s s' (written b e) h = subst IsBalanced (sym e) (write-IsBalanced sys b s h)

-- However a new socket is connected, used and disconnected, and whatever the system answers, each
-- descriptor that was opened has been closed, but the one that the socket holds.
pub Run-IsBalanced :
    {sys : System} (h : Calls) {s : HciSocket}
    → opens h ≡ closes h
    → Run sys (new_socket h) s
    → IsBalanced s
unfolding new_socket
Run-IsBalanced h e here = omega (arith, e)
Run-IsBalanced {sys} h e (next {s1} {s2} r st) = Step-IsBalanced sys s1 s2 st (Run-IsBalanced h e r)
