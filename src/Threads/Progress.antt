-- ===== src/Threads/Progress.antt =====
-- Threads that take their mutexes in order never wait for one another in a circle.
use mathlib.Core.Option.{none-ne-some, some_inj}
use bluetooth_le.Prelude.{
  ◌∙◌, ℕ, suc, zero, ◌+◌, ◌≤◌, ◌≡◌, ◌<◌, inl, inr, refl, ap, sym, subst, Bool, true, false, List,
  [], ◌∷◌, Option, none, some, arith, ◌==◌, if◌then◌else◌, Option-cases,
}
use bluetooth_le.Threads.{
  Program, return, acquire, release, act, System, init, update, advance, step, Reach, start, later,
  is_finished, IsDeadlock, step-acquire, step-release, step-act,
}
use bluetooth_le.Threads.Order.{Follows, holds, Above-holds}

module _ {S : Type 0} (bound : ℕ) (Keeps : S → Type 0) (n : ℕ) where
  -- What each thread holds, and that the owner of a mutex is a thread that holds it.
  record Inv (s : System S) : Type 0 where
    holding : ℕ → List ℕ
    good : Keeps s.shared
    follows : (i : ℕ) → i < n → Follows bound Keeps (holding i) [] (s.threads i)
    owned : (m i : ℕ) → s.owner m ≡ some i → (i < n) × (holds m (holding i) ≡ true)

  -- One thread goes on with `p` and `h`, the others as before.
  chosen :
      (b : Bool) (p q : Program S (Unit {0})) (h k : List ℕ)
      → Follows bound Keeps h [] p
      → Follows bound Keeps k [] q
      → Follows bound Keeps (if b then h else k) [] (if b then p else q)
  chosen true _ _ _ _ one other = one
  chosen false _ _ _ _ one other = other

  -- A thread has moved, what it holds is `h` now, and the owner of each mutex agrees.
  moved :
      (s : System S) (s' : S) (i : ℕ) (owner' : ℕ → Option ℕ) (h : List ℕ)
      (p : Program S (Unit {0}))
      → Keeps s'
      → (inv : Inv s) → Follows bound Keeps h [] p
      → ((m j : ℕ) → owner' m ≡ some j → (j < n) × (holds m (update inv.holding i h j) ≡ true))
      → Inv (record { shared = s'; owner = owner'; threads = update s.threads i p })
  moved s s' i owner' h p good inv follows owned = record {
    holding = update inv.holding i h;
    good = good;
    follows = λ j l. chosen (j == i) _ _ _ _ follows (inv.follows j l);
    owned = owned;
  }

  now-Follows :
      (s : System S) (i : ℕ) {p : Program S (Unit {0})} (inv : Inv s)
      → i < n
      → s.threads i ≡ p
      → Follows bound Keeps (inv.holding i) [] p
  now-Follows s i inv l e =
      subst (λ q. Follows bound Keeps (inv.holding i) [] q) e (inv.follows i l)

  acquire-Inv :
      (s t : System S) (i m : ℕ) (p : Program S (Unit {0})) (inv : Inv s)
      → i < n
      → Follows bound Keeps (inv.holding i) [] (acquire m p)
      → advance i (acquire m p) s ≡ some t
      → Inv t
  unfolding advance Follows holds
  acquire-Inv s t i m p inv l (low, above, fp) h = elim (Option-cases (s.owner m)) [
    | inl free ↦ subst Inv (some_inj.0 (sym (rw (free, advance) refl) ∙ h)) (
        moved s s.shared i (update s.owner m (some i)) (m ∷ inv.holding i) p inv.good inv fp
          (λ m' j e. ground (arith, inv.owned m' j)))
    | inr (j, taken) ↦ elim (none-ne-some t (sym (rw (taken, advance) refl) ∙ h)) [ ]
  ]

  release-Inv :
      (s t : System S) (i m : ℕ) (p : Program S (Unit {0})) (inv : Inv s)
      → i < n
      → Follows bound Keeps (inv.holding i) [] (release m p)
      → advance i (release m p) s ≡ some t
      → Inv t
  unfolding advance Follows holds
  release-Inv s t i m p inv l (rest, e, fp) h = subst Inv (some_inj.0 h) (
      moved s s.shared i (update s.owner m none) rest p inv.good inv fp
        (λ m' j o. ground (arith, inv.owned m' j, ap (holds m') e)))

  act-Inv :
      (s t : System S) (i : ℕ) (f : S → S) (next : S → Program S (Unit {0})) (inv : Inv s)
      → i < n
      → Follows bound Keeps (inv.holding i) [] (act f next)
      → advance i (act f next) s ≡ some t
      → Inv t
  unfolding advance Follows
  act-Inv s t i f next inv l follows h = subst Inv (some_inj.0 h) (
      moved s (f s.shared) i s.owner (inv.holding i) (next s.shared) (follows s.shared inv.good).0
        inv (follows s.shared inv.good).1 (λ m' j e. ground (arith, inv.owned m' j)))

  advance-Inv :
      (s t : System S) (i : ℕ) (p : Program S (Unit {0})) (inv : Inv s)
      → i < n
      → Follows bound Keeps (inv.holding i) [] p
      → advance i p s ≡ some t
      → Inv t
  unfolding advance
  advance-Inv s t i (return a) inv l follows h = elim (none-ne-some t h) [ ]
  advance-Inv s t i (acquire m p) inv l follows h = acquire-Inv s t i m p inv l follows h
  advance-Inv s t i (release m p) inv l follows h = release-Inv s t i m p inv l follows h
  advance-Inv s t i (act f next) inv l follows h = act-Inv s t i f next inv l follows h

  step-Inv : (s t : System S) (i : ℕ) → Inv s → i < n → step i s ≡ some t → Inv t
  unfolding step
  step-Inv s t i inv l h = advance-Inv s t i (s.threads i) inv l (inv.follows i l) h

  init-Inv :
      (s0 : S) (threads : ℕ → Program S (Unit {0}))
      → Keeps s0
      → ((i : ℕ) → i < n → Follows bound Keeps [] [] (threads i))
      → Inv (init s0 threads)
  init-Inv s0 threads good follows = record {
    holding = λ _. [];
    good = good;
    follows = follows;
    owned = λ m i e. elim (none-ne-some i e) [ ];
  }

  reached-Inv : {s0 s : System S} → Inv s0 → Reach n s0 s → Inv s
  reached-Inv inv start = inv
  reached-Inv inv (later {s} {t} i r l e) = step-Inv s t i (reached-Inv inv r) l e

  -- Some thread can take a step.
  abbrev CanMove : System S → Type 0
  CanMove s = (i : ℕ) × (t : System S) × (i < n) × (step i s ≡ some t)

  -- The mutex a thread waits for, if it waits, is among the last `k` ones.
  Waits : ℕ → Program S (Unit {0}) → Type 0
  Waits k (acquire m p) = bound ≤ m + k
  Waits k _ = Unit

  any-Waits : (q : Program S (Unit {0})) → Waits bound q
  unfolding Waits
  any-Waits (return a) = tt
  any-Waits (acquire m p) = omega arith
  any-Waits (release m p) = tt
  any-Waits (act f next) = tt

  -- A thread that holds a mutex has steps to do, and waits at most for a mutex above it.
  owner-Waits :
      (h : List ℕ) (m k : ℕ) (q : Program S (Unit {0}))
      → Follows bound Keeps h [] q
      → holds m h ≡ true
      → bound ≤ m + suc k
      → Waits k q × (is_finished q ≡ false)
  unfolding Follows holds Waits is_finished
  owner-Waits h m k (return a) f e l = ground (arith, f)
  owner-Waits h m k (acquire m' p) (low, above, f) e l =
      (omega (arith, Above-holds h m' m above e), refl)
  owner-Waits h m k (release m' p) f e l = (tt, refl)
  owner-Waits h m k (act f next) g e l = (tt, refl)

  -- Follow the owner of the mutex that is waited for.
  progress :
      (k : ℕ) (s : System S) (inv : Inv s) (i : ℕ) (q : Program S (Unit {0}))
      → i < n
      → s.threads i ≡ q
      → Waits k q
      → is_finished q ≡ false
      → CanMove s
  unfolding Waits is_finished step advance Follows
  progress k s inv i (return a) l e w f = ground (arith, f)
  progress k s inv i (release m p) l e w f = (i, _, l, step-release s e)
  progress k s inv i (act g next) l e w f = (i, _, l, step-act s e)
  progress zero s inv i (acquire m p) l e w f =
      absurd (omega (arith, w, (now-Follows s i inv l e).0))
  progress (suc k) s inv i (acquire m p) l e w f = elim (Option-cases (s.owner m)) [
    | inl free ↦ (i, _, l, step-acquire s e free)
    | inr (j, taken) ↦
        (let (lj, held) = inv.owned m j taken in
          let (wj, fj) = owner-Waits (inv.holding j) m k (s.threads j) (inv.follows j lj) held w in
          progress k s inv j (s.threads j) lj refl wj fj)
  ]

-- If each thread takes its mutexes in order, then in no state that the threads can reach is there a
-- deadlock: unless all have come to their end, one of them can go on.
pub no-IsDeadlock :
    {S : Type 0} (bound : ℕ) (Keeps : S → Type 0) (n : ℕ) (s0 : S)
    (threads : ℕ → Program S (Unit {0})) (s : System S)
    → Keeps s0
    → ((i : ℕ) → i < n → Follows bound Keeps [] [] (threads i))
    → Reach n (init s0 threads) s
    → ¬ IsDeadlock n s
no-IsDeadlock bound Keeps n s0 threads s good follows r (blocked, i, l, f) =
    let inv = reached-Inv bound Keeps n (init-Inv bound Keeps n s0 threads good follows) r in
    let (j, t, lj, e) =
      progress bound Keeps n bound s inv i (s.threads i) l refl
        (any-Waits bound Keeps n (s.threads i)) f in
    none-ne-some t (sym (blocked j lj) ∙ e)

-- What the steps of the threads keep true of the shared state is true in every state that the threads
-- can reach.
pub reached-Keeps :
    {S : Type 0} (bound : ℕ) (Keeps : S → Type 0) (n : ℕ) (s0 : S)
    (threads : ℕ → Program S (Unit {0})) (s : System S)
    → Keeps s0
    → ((i : ℕ) → i < n → Follows bound Keeps [] [] (threads i))
    → Reach n (init s0 threads) s
    → Keeps s.shared
reached-Keeps bound Keeps n s0 threads s good follows r =
    (reached-Inv bound Keeps n (init-Inv bound Keeps n s0 threads good follows) r).good
