-- ===== src/Threads.antt =====
-- Threads over shared state, for the code that locks `std::mutex`es. A program is a tree of steps:
-- each access to shared state is one step, and `std::lock_guard` is `guarded`, which locks before its
-- body and unlocks after it, on every way out. Threads are interleaved in any order; one that locks a
-- mutex somebody holds, itself included, waits. A mutex is a number.
pub mod Order
pub mod Progress
pub mod Alone
pub mod Atomic
use bluetooth_le.Prelude.{
  ℕ, refl, ◌≡◌, ◌<◌, ◌≢◌, Bool, true, false, Option, none, some, List, [], ◌∷◌, ◌==◌, if◌then◌else◌,
}

pub data Program (S A : Type 0) : Type 0 where
  return : A → Program S A
  acquire : ℕ → Program S A → Program S A
  release : ℕ → Program S A → Program S A
  -- what the step does to the state, and how the program goes on, by the state before the step
  act : (S → S) → (S → Program S A) → Program S A

infixl 5 ◌>>=◌ ◌>>◌
unfoldable pub ◌>>=◌ : {S A B : Type 0} → Program S A → (A → Program S B) → Program S B
return a >>= k = k a
acquire m p >>= k = acquire m (p >>= k)
release m p >>= k = release m (p >>= k)
act f next >>= k = act f (λ s. next s >>= k)

unfoldable pub ◌>>◌ : {S A B : Type 0} → Program S A → Program S B → Program S B
unfolding ◌>>=◌
p >> q = p >>= λ _. q

-- `std::lock_guard` over a block
unfoldable pub guarded : {S A : Type 0} → ℕ → Program S A → Program S A
unfolding ◌>>=◌
guarded m p = acquire m (p >>= λ a. release m (return a))

abbrev pub get : {S A : Type 0} → (S → A) → Program S A
get f = act (λ s. s) (λ s. return (f s))

abbrev pub modify : {S : Type 0} → (S → S) → Program S (Unit {0})
modify f = act f (λ _. return tt)

abbrev pub change : {S A : Type 0} → (S → A × S) → Program S A
change f = act (λ s. (f s).1) (λ s. return (f s).0)

pub record System (S : Type 0) : Type 0 where
  pub shared : S
  pub owner : ℕ → Option ℕ
  pub threads : ℕ → Program S (Unit {0})

abbrev pub update : {A : Type 0} → (ℕ → A) → ℕ → A → ℕ → A
update f i a j = if j == i then a else f j

module _ {S : Type 0} where
  -- Nobody holds a mutex yet.
  abbrev pub init : S → (ℕ → Program S (Unit {0})) → System S
  init s threads = record { shared = s; owner = λ _. none; threads = threads }

  -- The states after the three kinds of steps; thread `i` goes on with `p`.
  abbrev pub locked : ℕ → ℕ → Program S (Unit {0}) → System S → System S
  locked i m p s = record s { owner = update s.owner m (some i); threads = update s.threads i p }

  abbrev pub unlocked : ℕ → ℕ → Program S (Unit {0}) → System S → System S
  unlocked i m p s = record s { owner = update s.owner m none; threads = update s.threads i p }

  abbrev pub acted : ℕ → S → Program S (Unit {0}) → System S → System S
  acted i s' p s = record s { shared = s'; threads = update s.threads i p }

  unfoldable pub advance : ℕ → Program S (Unit {0}) → System S → Option (System S)
  advance i (return a) s = none
  advance i (acquire m p) s = elim (s.owner m) [ none ↦ some (locked i m p s) | some _ ↦ none ]
  advance i (release m p) s = some (unlocked i m p s)
  advance i (act f next) s = some (acted i (f s.shared) (next s.shared) s)

  -- A step of thread `i`; `none` when it is at its end or waits.
  unfoldable pub step : ℕ → System S → Option (System S)
  unfolding advance
  step i s = advance i (s.threads i) s

  -- What `n` threads can reach from a state.
  pub data Reach (n : ℕ) (s0 : System S) : System S → Type 0 where
    start : Reach n s0 s0
    later : {s t : System S} (i : ℕ) → Reach n s0 s → i < n → step i s ≡ some t → Reach n s0 t

  unfoldable pub is_finished : Program S (Unit {0}) → Bool
  is_finished (return a) = true
  is_finished (acquire m p) = false
  is_finished (release m p) = false
  is_finished (act f next) = false

  -- No thread can move, and one has not come to its end.
  abbrev pub IsDeadlock : ℕ → System S → Type 0
  IsDeadlock n s =
      ((i : ℕ) → i < n → step i s ≡ none) × (i : ℕ) × (i < n) × (is_finished (s.threads i) ≡ false)

  pub step-acquire :
      {i m : ℕ} {p : Program S (Unit {0})} (s : System S)
      → s.threads i ≡ acquire m p
      → s.owner m ≡ none
      → step i s ≡ some (locked i m p s)
  unfolding step advance
  step-acquire s e free = rw (e, advance, free) refl

  pub step-release :
      {i m : ℕ} {p : Program S (Unit {0})} (s : System S)
      → s.threads i ≡ release m p
      → step i s ≡ some (unlocked i m p s)
  unfolding step advance
  step-release s e = rw e refl

  pub step-act :
      {i : ℕ} {f : S → S} {next : S → Program S (Unit {0})} (s : System S)
      → s.threads i ≡ act f next
      → step i s ≡ some (acted i (f s.shared) (next s.shared) s)
  unfolding step advance
  step-act s e = rw e refl
