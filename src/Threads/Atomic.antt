-- ===== src/Threads/Atomic.antt =====
-- Threads that do everything under one mutex: what they do to the shared state is what their calls do
-- one after the other, in some order.
use mathlib.Core.Path.{fun_ext}
use mathlib.Core.Option.{none-ne-some, some_inj}
use mathlib.Core.List.{append_assoc}
use bluetooth_le.Prelude.{
  ℕ, ◌≡◌, ◌<◌, refl, sym, ap, subst, ◌∙◌, List, [], ◌∷◌, ◌++◌, none, some, ◌==◌, if◌then◌else◌,
  arith, true, false, Bool-cases, inl, inr, ==_iff,
}
use bluetooth_le.Threads.{
  Program, return, acquire, release, act, ◌>>=◌, ◌>>◌, guarded, System, init, update, locked,
  advance, step, Reach, start, later,
}
use bluetooth_le.Threads.Alone.{run}

-- A program that locks nothing.
unfoldable pub IsPlain : {S A : Type 0} → Program S A → Type 0
IsPlain (return a) = Unit
IsPlain (acquire m p) = ⊥
IsPlain (release m p) = ⊥
IsPlain {S} (act f next) = (s : S) → IsPlain (next s)

pub bind_assoc :
    {S A B C : Type 0} (p : Program S A) (f : A → Program S B) (g : B → Program S C)
    → ((p >>= f) >>= g) ≡ (p >>= λ a. f a >>= g)
unfolding ◌>>=◌
bind_assoc (return a) f g = refl
bind_assoc (acquire m p) f g = ap (acquire m) (bind_assoc p f g)
bind_assoc (release m p) f g = ap (release m) (bind_assoc p f g)
bind_assoc (act h next) f g = ap (act h) (fun_ext λ s. bind_assoc (next s) f g)

pub bind-IsPlain :
    {S A B : Type 0} (p : Program S A) (f : A → Program S B)
    → IsPlain p
    → ((a : A) → IsPlain (f a))
    → IsPlain (p >>= f)
unfolding ◌>>=◌ IsPlain
bind-IsPlain (return a) f h k = k a
bind-IsPlain (acquire m p) f h k = absurd h
bind-IsPlain (release m p) f h k = absurd h
bind-IsPlain (act g next) f h k = λ s. bind-IsPlain (next s) f (h s) k

-- The calls of one thread in a log, of which the latest is the first.
unfoldable pub mine : {O : Type 0} → ℕ → List (ℕ × O) → List O
mine i [] = []
mine i ((j, b) ∷ log) = let before = mine i log in if j == i then before ++ b ∷ [] else before

module _ {S O : Type 0} (body : O → Program S (Unit {0})) where
  -- Calls one after the other, each under the mutex 0.
  unfoldable pub locking : List O → Program S (Unit {0})
  unfolding ◌>>=◌
  locking [] = return tt
  locking (b ∷ bs) = acquire 0 (body b >>= λ _. release 0 (locking bs))

  pub guarded-locking :
      (b : O) (bs : List O) → (guarded 0 (body b) >> locking bs) ≡ locking (b ∷ bs)
  unfolding guarded ◌>>◌ ◌>>=◌ locking
  guarded-locking b bs = ap (acquire 0) (bind_assoc (body b) _ _)

  -- The calls of a log without any other thread.
  unfoldable pub replay : List (ℕ × O) → S → S
  unfolding run
  replay [] s = s
  replay ((i, b) ∷ log) s = (run (body b) (replay log s)).1

module _ {S O : Type 0} (body : O → Program S (Unit {0})) (plain : (b : O) → IsPlain (body b))
    (n : ℕ) (s0 : S) (plan : ℕ → List O) where
  -- Between two calls, or in one, of which `p` is left.
  data At (s : System S) : Type 0 where
    between :
        (log : List (ℕ × O)) (rest : ℕ → List O)
        → s.owner 0 ≡ none
        → s.shared ≡ replay body log s0
        → ((i : ℕ) → i < n → s.threads i ≡ locking body (rest i))
        → ((i : ℕ) → (mine i log ++ rest i) ≡ plan i)
        → At s
    within :
        (log : List (ℕ × O)) (rest : ℕ → List O) (j : ℕ) (b : O) (p : Program S (Unit {0}))
        → s.owner 0 ≡ some j
        → IsPlain p
        → (run p s.shared).1 ≡ replay body ((j, b) ∷ log) s0
        → s.threads j ≡ (p >>= λ _. release 0 (locking body (rest j)))
        → ((i : ℕ) → i < n → (i == j) ≡ false → s.threads i ≡ locking body (rest i))
        → ((i : ℕ) → (mine i ((j, b) ∷ log) ++ rest i) ≡ plan i)
        → At s

  -- The plan of each thread is kept when one goes on to its next call.
  took-kept :
      (i : ℕ) (log : List (ℕ × O)) (rest : ℕ → List O) (b : O) (bs : List O)
      → ((j : ℕ) → (mine j log ++ rest j) ≡ plan j)
      → rest i ≡ b ∷ bs
      → (j : ℕ) → (mine j ((i, b) ∷ log) ++ update rest i bs j) ≡ plan j
  unfolding mine
  took-kept i log rest b bs kept r j = elim (Bool-cases (j == i)) [
    | inl same ↦
        (let back : (i == j) ≡ true = ground (arith, same) in
          let here : rest j ≡ b ∷ bs = ap rest ((==_iff j i).0 same) ∙ r in
          rw (same, back)
            (append_assoc (mine j log) (b ∷ []) bs ∙ ap (λ x. mine j log ++ x) (sym here) ∙ kept j))
    | inr other ↦ (let back : (i == j) ≡ false = ground (arith, other) in rw (other, back) (kept j))
  ]

  same_same : (i : ℕ) → (i == i) ≡ true
  same_same i = ground arith

  -- A thread begins its next call.
  begin :
      (s t : System S) (i : ℕ) (log : List (ℕ × O)) (rest : ℕ → List O) (bs : List O)
      → s.owner 0 ≡ none
      → s.shared ≡ replay body log s0
      → ((j : ℕ) → j < n → s.threads j ≡ locking body (rest j))
      → ((j : ℕ) → (mine j log ++ rest j) ≡ plan j)
      → i < n
      → rest i ≡ bs
      → advance i (locking body bs) s ≡ some t
      → At t
  unfolding locking advance replay
  begin s t i log rest [] free same threads kept l r e = elim (none-ne-some t e) [ ]
  begin s t i log rest (b ∷ bs) free same threads kept l r e =
      let t0 = locked i 0 (body b >>= λ _. release 0 (locking body bs)) s in
      let begun : advance i (locking body (b ∷ bs)) s ≡ some t0 = rw free refl in
      subst At (some_inj.0 (sym begun ∙ e)) (
        within log (update rest i bs) i b (body b) refl (plain b)
          (ap (λ x. (run (body b) x).1) same) (rw (same_same i) refl)
          (λ j lj other. rw other (threads j lj)) (took-kept i log rest b bs kept r))

  -- The thread that holds the mutex goes on.
  go_on :
      (s t : System S) (log : List (ℕ × O)) (rest : ℕ → List O) (j : ℕ) (b : O)
      (p : Program S (Unit {0}))
      → s.owner 0 ≡ some j
      → IsPlain p
      → (run p s.shared).1 ≡ replay body ((j, b) ∷ log) s0
      → s.threads j ≡ (p >>= λ _. release 0 (locking body (rest j)))
      → ((i : ℕ) → i < n → (i == j) ≡ false → s.threads i ≡ locking body (rest i))
      → ((i : ℕ) → (mine i ((j, b) ∷ log) ++ rest i) ≡ plan i)
      → advance j (p >>= λ _. release 0 (locking body (rest j))) s ≡ some t
      → At t
  unfolding advance ◌>>=◌ IsPlain run
  go_on s t log rest j b (return a) o plain r e others kept h = subst At (some_inj.0 h) (
      between ((j, b) ∷ log) rest refl r
        (λ i l. elim (Bool-cases (i == j)) [
          | inl same ↦ rw same (ap (λ x. locking body (rest x)) (sym ((==_iff i j).0 same)))
          | inr other ↦ rw other (others i l other)
        ])
        kept)
  go_on s t log rest j b (acquire m p) o plain r e others kept h = absurd plain
  go_on s t log rest j b (release m p) o plain r e others kept h = absurd plain
  go_on s t log rest j b (act f next) o plain r e others kept h = subst At (some_inj.0 h) (
      within log rest j b (next s.shared) o (plain s.shared) r (rw (same_same j) refl)
        (λ i l other. rw other (others i l other)) kept)

  -- Another thread waits.
  waits :
      (s t : System S) (i j : ℕ) (bs : List O)
      → s.owner 0 ≡ some j
      → advance i (locking body bs) s ≡ some t
      → At t
  unfolding locking advance
  waits s t i j [] o h = elim (none-ne-some t h) [ ]
  waits s t i j (b ∷ bs) o h = elim (none-ne-some t (sym (rw (o, advance) refl) ∙ h)) [ ]

  step-At : (s t : System S) (i : ℕ) → At s → i < n → step i s ≡ some t → At t
  unfolding step
  step-At s t i (between log rest free same threads kept) l h =
      begin s t i log rest (rest i) free same threads kept l refl
        (subst (λ p. advance i p s ≡ some t) (threads i l) h)
  step-At s t i (within log rest j b p o plain r e others kept) l h = elim (Bool-cases (i == j)) [
    | inl same ↦ go_on s t log rest j b p o plain r e others kept (
        subst (λ q. advance j q s ≡ some t) e
          (subst (λ x. advance x (s.threads x) s ≡ some t) ((==_iff i j).0 same) h))
    | inr other ↦
        waits s t i j (rest i) o (subst (λ q. advance i q s ≡ some t) (others i l other) h)
  ]

  reached-At : {s t : System S} → At s → Reach n s t → At t
  reached-At at start = at
  reached-At at (later {s} {t} i r l e) = step-At s t i (reached-At at r) l e

  start-At : At (init s0 (λ i. locking body (plan i)))
  unfolding replay mine
  start-At = between [] plan refl refl (λ i l. refl) (λ i. refl)

-- What threads that do everything under one mutex do to the shared state: in every state they reach
-- in which the mutex is free, it is what the calls that have ended do one after the other. Those of
-- each thread are the first ones of its plan, in their order.
pub serial :
    {S O : Type 0} (body : O → Program S (Unit {0})) (plain : (b : O) → IsPlain (body b)) (n : ℕ)
    (s0 : S) (plan : ℕ → List O) (t : System S)
    → Reach n (init s0 (λ i. locking body (plan i))) t
    → t.owner 0 ≡ none
    → (log : List (ℕ × O)) × (t.shared ≡ replay body log s0)
      × ((i : ℕ) → (rest : List O) × ((mine i log ++ rest) ≡ plan i))
serial body plain n s0 plan t r free =
    elim (reached-At body plain n s0 plan (start-At body plain n s0 plan) r) [
      | between log rest _ same _ kept ↦ (log, same, λ i. (rest i, kept i))
      | within log rest j b p o _ _ _ _ _ ↦ elim (none-ne-some j (sym free ∙ o)) [ ]
    ]
