-- ===== src/Hci/Events/Loop.antt =====
-- src/HciAdapter.cpp: the loop of the event thread on a socket that the peer has closed.
use bluetooth_le.Prelude.{
  ℕ, zero, suc, ◌≡◌, refl, Bool, true, false, List, [], ◌∷◌, Option, none, some,
}
use bluetooth_le.Hci.System.{System, Calls, select, recv, ready}
use bluetooth_le.Hci.Socket.{HciSocket, is_connected, call, runs}
use bluetooth_le.Hci.Socket.Waiting.{read_closed}
use bluetooth_le.Hci.Events.{Outcome, process_events}

-- A socket that the peer has closed: there are data at once, and receiving them gives no byte.
pub record IsClosed (sys : System) : Type 0 where
  pub at_once : (h : Calls) (fd : Option ℕ) → sys.selects h fd ≡ ready
  pub nothing : (h : Calls) (fd : Option ℕ) → sys.receives h fd ≡ some []
  pub unstopped : (h : Calls) → sys.stopped h ≡ false

-- Where the peer has closed a socket that is open and that nobody stops, so that data come at once
-- and each is empty, the loop of the event thread has not ended after any number of rounds.
pub process_events_busy :
    (sys : System) (cleared : Calls → Bool) (rounds fuel : ℕ) (s : HciSocket) (done : List Outcome)
    → IsClosed sys
    → ((h : Calls) → cleared h ≡ false)
    → s.is_running ≡ true
    → is_connected s ≡ true
    → process_events sys cleared rounds (suc fuel) s done ≡ none
unfolding process_events
process_events_busy sys cleared zero fuel s done c f r k = refl
process_events_busy sys cleared (suc rounds) fuel s done c f r k =
    (let s' = call (recv s.fd) (call (select s.fd) s) in
      let e =
        read_closed sys fuel s (going s r) (c.at_once s.calls s.fd)
          (c.nothing (select s.fd ∷ s.calls) s.fd) in
      rw (f s.calls, k, e, process_events)
        (process_events_busy sys cleared rounds fuel s' done c f r k))
  where
    going : (s : HciSocket) → s.is_running ≡ true → runs sys s ≡ true
    going s r = rw (r, c.unstopped s.calls) refl
