-- ===== src/Hci/Adapter/Stopping.antt =====
-- src/HciAdapter.cpp: when `stop` returns.
use mathlib.Core.Option.{none-ne-some, some_inj}
use bluetooth_le.Prelude.{
  ℕ, ◌<◌, ◌≡◌, ◌↔◌, refl, sym, subst, Bool, true, false, Option, none, some, Text, Bool-cases,
  Option-cases, inl, inr,
}
use bluetooth_le.Hci.System.{System}
use bluetooth_le.Hci.Socket.{HciSocket, disconnect, read}
use bluetooth_le.Hci.Socket.Waiting.{after, IsQuiet, wait_unfinished_iff, read_pending_iff}
use bluetooth_le.Hci.Adapter.{HciAdapter, joined, stop}

joined_pending_iff :
    (r : Option (Bool × Text) × HciSocket) (a : HciAdapter) → (joined r a ≡ none) ↔ (r.0 ≡ none)
unfolding joined
joined_pending_iff (none, s) a = ((λ e. refl), (λ e. refl))
joined_pending_iff (some t, s) a =
    ((λ e. absurd (none-ne-some _ (sym e))), (λ e. absurd (none-ne-some t (sym e))))

-- Where the event thread stands in its read, `stop` has not returned after some rounds of the wait
-- exactly if in each of them the socket's own flag was still set, nobody had stopped the socket,
-- and the time was over. That `stop` has cleared the adapter's flag plays no part.
pub stop_pending_iff :
    (sys : System) (fuel : ℕ) (a : HciAdapter)
    → a.reading ≡ true
    → (stop sys fuel a ≡ none) ↔ ((n : ℕ) → n < fuel → IsQuiet sys (after n a.socket))
unfolding stop
stop_pending_iff sys fuel a reads =
    (let a' : HciAdapter = record { socket = a.socket; is_running = false; reading = true } in
      let r = read sys fuel a.socket in
      let j = joined_pending_iff r a' in
      let k = read_pending_iff sys fuel a.socket in
      let w = wait_unfinished_iff sys fuel a.socket in
      rw reads ((λ e. w.0 (k.0 (j.0 e))), (λ q. j.1 (k.1 (w.1 q)))))

disconnect_fd : (s : HciSocket) → (disconnect s).fd ≡ none
unfolding disconnect
disconnect_fd s = elim (Option-cases s.fd) [ inl e ↦ rw e refl | inr (fd, e) ↦ rw e refl ]

-- An adapter whose thread and socket are gone.
abbrev pub IsStopped : HciAdapter → Type 0
IsStopped a = (a.socket.fd ≡ none) × (a.is_running ≡ false)

joined-IsStopped :
    (r : Option (Bool × Text) × HciSocket) (a b : HciAdapter)
    → a.is_running ≡ false
    → joined r a ≡ some b
    → IsStopped b
unfolding joined
joined-IsStopped (none, s) a b f e = absurd (none-ne-some b e)
joined-IsStopped (some t, s) a b f e = subst IsStopped (some_inj.0 e) (disconnect_fd s, f)

-- When `stop` has returned, the adapter's flag is cleared and its socket is closed.
pub stop-IsStopped :
    (sys : System) (fuel : ℕ) (a b : HciAdapter) → stop sys fuel a ≡ some b → IsStopped b
unfolding stop
stop-IsStopped sys fuel a b = elim (Bool-cases a.reading) [
  | inl r ↦ rw r (λ e.
      joined-IsStopped (read sys fuel a.socket)
        (record { socket = a.socket; is_running = false; reading = true }) b refl e)
  | inr r ↦ rw r (λ e. subst IsStopped (some_inj.0 e) (disconnect_fd a.socket, refl))
]
