-- ===== src/Threads/Order.antt =====
-- The order in which the code takes mutexes: always a higher number than all it holds.
use bluetooth_le.Prelude.{
  ℕ, ◌≡◌, ◌<◌, refl, sym, subst, List, [], ◌∷◌, Bool, true, false, ◌==◌, if◌then◌else◌, arith,
}
use bluetooth_le.Threads.{Program, return, acquire, release, act, ◌>>=◌, ◌>>◌, guarded}

unfoldable pub Above : List ℕ → ℕ → Type 0
Above [] m = Unit
Above (x ∷ h) m = (x < m) × Above h m

unfoldable pub holds : ℕ → List ℕ → Bool
holds m [] = false
holds m (x ∷ h) = let rest = holds m h in if x == m then true else rest

pub Above-holds : (h : List ℕ) (m x : ℕ) → Above h m → holds x h ≡ true → x < m
unfolding Above holds
Above-holds [] m x above e = ground arith
Above-holds (y ∷ h) m x (below, above) e = ground (arith, Above-holds h m x above)

-- A program that starts with the mutexes `h` and ends with `h'` takes only mutexes below `bound`, each
-- above those it holds, gives back the last one it took, and keeps `Keeps` true of the state.
module _ {S : Type 0} (bound : ℕ) (Keeps : S → Type 0) where
  unfoldable pub Follows : {A : Type 0} → List ℕ → List ℕ → Program S A → Type 0
  unfolding Above
  Follows h h' (return a) = h ≡ h'
  Follows h h' (acquire m p) = (m < bound) × Above h m × Follows (m ∷ h) h' p
  Follows h h' (release m p) = (rest : List ℕ) × (h ≡ m ∷ rest) × Follows rest h' p
  Follows h h' (act f next) = (s : S) → Keeps s → Keeps (f s) × Follows h h' (next s)

  pub bind-Follows :
      {A B : Type 0} (h h1 h' : List ℕ) (p : Program S A) (k : A → Program S B)
      → Follows h h1 p
      → ((a : A) → Follows h1 h' (k a))
      → Follows h h' (p >>= k)
  unfolding Follows ◌>>=◌
  bind-Follows h h1 h' (return a) k fp fk = subst (λ x. Follows x h' (k a)) (sym fp) (fk a)
  bind-Follows h h1 h' (acquire m p) k (low, above, fp) fk =
      (low, above, bind-Follows (m ∷ h) h1 h' p k fp fk)
  bind-Follows h h1 h' (release m p) k (rest, e, fp) fk =
      (rest, e, bind-Follows rest h1 h' p k fp fk)
  bind-Follows h h1 h' (act f next) k fp fk =
      λ s good. ((fp s good).0, bind-Follows h h1 h' (next s) k (fp s good).1 fk)

  -- A program that ends with the mutexes it starts with.
  abbrev pub Ordered : {A : Type 0} → List ℕ → Program S A → Type 0
  Ordered h p = Follows h h p

  pub bind-Ordered :
      {A B : Type 0} (h : List ℕ) (p : Program S A) (k : A → Program S B)
      → Ordered h p
      → ((a : A) → Ordered h (k a))
      → Ordered h (p >>= k)
  bind-Ordered h p k fp fk = bind-Follows h h h p k fp fk

  pub then-Ordered :
      {A B : Type 0} (h : List ℕ) (p : Program S A) (q : Program S B)
      → Ordered h p
      → Ordered h q
      → Ordered h (p >> q)
  unfolding ◌>>◌
  then-Ordered h p q fp fq = bind-Follows h h h p (λ _. q) fp (λ _. fq)

  pub guarded-Ordered :
      {A : Type 0} (h : List ℕ) (m : ℕ) (p : Program S A)
      → m < bound
      → Above h m
      → Ordered (m ∷ h) p
      → Ordered h (guarded m p)
  unfolding guarded Follows
  guarded-Ordered h m p low above fp = (
    low,
    above,
    bind-Follows (m ∷ h) (m ∷ h) h p (λ a. release m (return a)) fp (λ a. (h, refl, refl)),
  )

  pub return-Ordered : {A : Type 0} (h : List ℕ) (a : A) → Ordered h (return a)
  unfolding Follows
  return-Ordered h a = refl

  -- One step, which keeps the state as it has to be.
  pub act-Ordered :
      {A : Type 0} (h : List ℕ) (f : S → S) (g : S → A)
      → ((s : S) → Keeps s → Keeps (f s))
      → Ordered h (act f (λ s. return (g s)))
  unfolding Follows
  act-Ordered h f g kept = λ s good. (kept s good, refl)

  pub if-Ordered :
      {A : Type 0} (h : List ℕ) (b : Bool) (p q : Program S A)
      → Ordered h p
      → Ordered h q
      → Ordered h (if b then p else q)
  if-Ordered h true p q fp fq = fp
  if-Ordered h false p q fp fq = fq
