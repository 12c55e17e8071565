-- ===== src/Hci/Socket/Waiting.antt =====
-- When the wait for data ends.
use mathlib.Core.Option.{none-ne-some}
use bluetooth_le.Prelude.{
  ℕ, zero, suc, ◌<◌, ◌≡◌, ◌⊎◌, ◌↔◌, refl, sym, ap, ◌∙◌, Bool, true, false, [], ◌∷◌, Option, none,
  some, arith, Bool-cases, inl, inr,
}
use bluetooth_le.Hci.System.{System, Selected, select, recv, ready, failed, timed_out}
use bluetooth_le.Hci.Socket.{
  HciSocket, call, runs, wait_for_data_or_shutdown, read_after, received, read,
}

-- The socket after `n` rounds whose time was over.
pub after : ℕ → HciSocket → HciSocket
after zero s = s
after (suc n) s = after n (call (select s.fd) s)

-- The round that the socket stands before does not end the wait.
abbrev pub IsQuiet : System → HciSocket → Type 0
IsQuiet sys s = (runs sys s ≡ true) × (sys.selects s.calls s.fd ≡ timed_out)

Selected-cases : (x : Selected) → (x ≡ timed_out) ⊎ (x ≡ ready) ⊎ (x ≡ failed)
Selected-cases ready = inr (inl refl)
Selected-cases failed = inr (inr refl)
Selected-cases timed_out = inl refl

module _ (sys : System) where
  round_quiet :
      (fuel : ℕ) (s : HciSocket)
      → IsQuiet sys s
      → wait_for_data_or_shutdown sys (suc fuel) s
        ≡ wait_for_data_or_shutdown sys fuel (call (select s.fd) s)
  unfolding wait_for_data_or_shutdown
  round_quiet fuel s (r, t) = rw (r, t, wait_for_data_or_shutdown) refl

  -- A round that ends the wait answers whether there are data.
  round_ends :
      (fuel : ℕ) (s : HciSocket)
      → IsQuiet sys s ⊎ ((b : Bool) × ((wait_for_data_or_shutdown sys (suc fuel) s).0 ≡ some b))
  unfolding wait_for_data_or_shutdown
  round_ends fuel s = elim (Bool-cases (runs sys s)) [
    | inl r ↦ elim (Selected-cases (sys.selects s.calls s.fd)) [
      | inl t ↦ inl (r, t)
      | inr (inl t) ↦ inr (true, rw (r, t, wait_for_data_or_shutdown) refl)
      | inr (inr t) ↦ inr (false, rw (r, t, wait_for_data_or_shutdown) refl)
    ]
    | inr r ↦ inr (false, rw (r, wait_for_data_or_shutdown) refl)
  ]

  unfinished-IsQuiet :
      (fuel : ℕ) (s : HciSocket)
      → (wait_for_data_or_shutdown sys fuel s).0 ≡ none
      → (n : ℕ) → n < fuel
      → IsQuiet sys (after n s)
  unfolding after
  unfinished-IsQuiet zero s e n h = absurd (omega arith)
  unfinished-IsQuiet (suc fuel) s e n h = elim (round_ends fuel s) [
    | inl q ↦
        (let rest =
            unfinished-IsQuiet fuel (call (select s.fd) s)
              (ap (λ r. r.0) (sym (round_quiet fuel s q)) ∙ e) in
          rounds n q rest h)
    | inr (b, t) ↦ absurd (none-ne-some b (sym e ∙ t))
  ]
    where
      rounds :
          (n : ℕ)
          → IsQuiet sys s
          → ((m : ℕ) → m < fuel → IsQuiet sys (after m (call (select s.fd) s)))
          → n < suc fuel
          → IsQuiet sys (after n s)
      rounds zero q rest h = q
      rounds (suc m) q rest h = rest m (omega (arith, h))

  IsQuiet-unfinished :
      (fuel : ℕ) (s : HciSocket)
      → ((n : ℕ) → n < fuel → IsQuiet sys (after n s))
      → (wait_for_data_or_shutdown sys fuel s).0 ≡ none
  unfolding after
  IsQuiet-unfinished zero s h = unfold wait_for_data_or_shutdown in refl
  IsQuiet-unfinished (suc fuel) s h =
      ap (λ r. r.0) (round_quiet fuel s (h 0 (omega arith)))
      ∙ IsQuiet-unfinished fuel (call (select s.fd) s) (λ n l. h (suc n) (omega (arith, l)))

-- The wait has no result after some rounds exactly if in each of them the socket was still running
-- and the time was over: it ends in the first round where data come, the system reports an error, or
-- the socket has been stopped, and in no other way.
pub wait_unfinished_iff :
    (sys : System) (fuel : ℕ) (s : HciSocket)
    → ((wait_for_data_or_shutdown sys fuel s).0 ≡ none)
      ↔ ((n : ℕ) → n < fuel → IsQuiet sys (after n s))
wait_unfinished_iff sys fuel s = (unfinished-IsQuiet sys fuel s, IsQuiet-unfinished sys fuel s)

after_pending_iff :
    (sys : System) (r : Option Bool × HciSocket) → ((read_after sys r).0 ≡ none) ↔ (r.0 ≡ none)
unfolding read_after
after_pending_iff sys (none, s) = ((λ e. refl), (λ e. refl))
after_pending_iff sys (some false, s) =
    ((λ e. absurd (none-ne-some _ (sym e))), (λ e. absurd (none-ne-some false (sym e))))
after_pending_iff sys (some true, s) =
    ((λ e. absurd (none-ne-some _ (sym e))), (λ e. absurd (none-ne-some true (sym e))))

-- A read has no result while the wait has none, and only then.
pub read_pending_iff :
    (sys : System) (fuel : ℕ) (s : HciSocket)
    → ((read sys fuel s).0 ≡ none) ↔ ((wait_for_data_or_shutdown sys fuel s).0 ≡ none)
unfolding read
read_pending_iff sys fuel s = after_pending_iff sys (wait_for_data_or_shutdown sys fuel s)

wait_ready :
    (sys : System) (fuel : ℕ) (s : HciSocket)
    → runs sys s ≡ true
    → sys.selects s.calls s.fd ≡ ready
    → wait_for_data_or_shutdown sys (suc fuel) s ≡ (some true, call (select s.fd) s)
unfolding wait_for_data_or_shutdown
wait_ready sys fuel s r t = rw (r, t, wait_for_data_or_shutdown) refl

-- A round in which there are data at once, and receiving them gives no byte.
pub read_closed :
    (sys : System) (fuel : ℕ) (s : HciSocket)
    → runs sys s ≡ true
    → sys.selects s.calls s.fd ≡ ready
    → sys.receives (select s.fd ∷ s.calls) s.fd ≡ some []
    → read sys (suc fuel) s ≡ (some (false, []), call (recv s.fd) (call (select s.fd) s))
unfolding read read_after received
read_closed sys fuel s r t e =
    ap (read_after sys) (wait_ready sys fuel s r t)
    ∙ ap (λ o. (some (received o), call (recv s.fd) (call (select s.fd) s))) e
