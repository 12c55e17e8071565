-- ===== src/Threads/Alone.antt =====
-- What a program does when no other thread runs.
use bluetooth_le.Prelude.{
  ℕ, ◌≡◌, refl, ap, List, [], ◌∷◌, Bool, true, false, none, some, arith, ltb, ◌&&◌, Option-cases,
  inl, inr,
}
use bluetooth_le.Threads.{
  Program, return, acquire, release, act, System, init, advance, step, Reach, start, later,
  is_finished, locked, unlocked, acted, step-acquire, step-release, step-act,
}
use bluetooth_le.Threads.Order.{Above, Follows, holds}

-- The result and the state at the end, without a look at the mutexes.
unfoldable pub run : {S A : Type 0} → Program S A → S → A × S
run (return a) s = (a, s)
run (acquire m p) s = run p s
run (release m p) s = run p s
run (act f next) s = run (next s) (f s)

Above-unheld : (h : List ℕ) (m : ℕ) → Above h m → holds m h ≡ false
unfolding Above holds
Above-unheld [] m above = refl
Above-unheld (x ∷ h) m (below, above) = ground (arith, Above-unheld h m above)

module _ {S : Type 0} (bound : ℕ) (Keeps : S → Type 0) where
  -- Thread 0 has come to its end in this state, and holds no mutex.
  record Ended (s0 : System S) (result : S) : Type 0 where
    last : System S
    reach : Reach 1 s0 last
    finished : is_finished (last.threads 0) ≡ true
    shared : last.shared ≡ result
    free : (m : ℕ) → last.owner m ≡ none

  ends :
      (s0 s : System S) (h : List ℕ) (p : Program S (Unit {0}))
      → Reach 1 s0 s
      → s.threads 0 ≡ p
      → Follows bound Keeps h [] p
      → Keeps s.shared
      → ((m : ℕ) → holds m h ≡ false → s.owner m ≡ none)
      → Ended s0 (run p s.shared).1
  unfolding Follows run is_finished holds step advance
  ends s0 s h (return a) r e f good free = record {
    last = s;
    reach = r;
    finished = rw e refl;
    shared = refl;
    free = λ m. free m (rw f refl);
  }
  ends s0 s h (acquire m p) r e (low, above, f) good free =
      let unheld = free m (Above-unheld h m above) in
      ends s0 (locked 0 m p s) (m ∷ h) p (later 0 r (omega arith) (step-acquire s e unheld)) refl f
        good (λ j u. ground (arith, free j))
  ends s0 s h (release m p) r e (rest, eq, f) good free =
      ends s0 (unlocked 0 m p s) rest p (later 0 r (omega arith) (step-release s e)) refl f good
        (λ j u. ground (arith, free j, ap (holds j) eq))
  ends s0 s h (act g next) r e f good free =
      ends s0 (acted 0 (g s.shared) (next s.shared) s) h (next s.shared)
        (later 0 r (omega arith) (step-act s e)) refl (f s.shared good).1 (f s.shared good).0 free

-- A thread that runs alone, and takes its mutexes in order, comes to its end: it never waits, holds no
-- mutex at the end, and leaves the state of `run`.
pub alone :
    {S : Type 0} (bound : ℕ) (Keeps : S → Type 0) (p : Program S (Unit {0})) (s : S)
    → Keeps s
    → Follows bound Keeps [] [] p
    → (last : System S) × Reach 1 (init s (λ _. p)) last
      × (is_finished (last.threads 0) ≡ true)
      × (last.shared ≡ (run p s).1)
      × ((m : ℕ) → last.owner m ≡ none)
alone bound Keeps p s good f =
    let e =
      ends bound Keeps (init s (λ _. p)) (init s (λ _. p)) [] p start refl f good (λ _ _. refl) in
    (e.last, e.reach, e.finished, e.shared, e.free)

-- Threads take steps in a given order; one that cannot take its step is passed over.
unfoldable pub drive : {S : Type 0} → List ℕ → System S → System S
unfolding step
drive [] s = s
drive (i ∷ l) s = drive l (elim (step i s) [ none ↦ s | some t ↦ t ])

unfoldable pub picks : ℕ → List ℕ → Bool
picks n [] = true
picks n (i ∷ l) = ltb i n && picks n l

pub drive-Reach :
    {S : Type 0} (n : ℕ) (l : List ℕ) (s0 s : System S)
    → picks n l ≡ true
    → Reach n s0 s
    → Reach n s0 (drive l s)
unfolding drive picks
drive-Reach n [] s0 s e r = r
drive-Reach n (i ∷ l) s0 s e r = elim (Option-cases (step i s)) [
  | inl none_t ↦ rw none_t (drive-Reach n l s0 s (ground arith) r)
  | inr (t, some_t) ↦
      rw some_t (drive-Reach n l s0 t (ground arith) (later i r (ground arith) some_t))
]
