-- ===== src/Gatt/Locks/Notifying.antt =====
-- The flag of the notifications while threads use a characteristic and its descriptor.
use bluetooth_le.Prelude.{refl, ◌∙◌, ℕ, ◌≡◌, sym, ap, Bool, true, ◌||◌, List}
use mathlib.Core.Bool.{true≢false}
use bluetooth_le.Gio.{Environment}
use bluetooth_le.Threads.{System, Reach, init}
use bluetooth_le.Threads.Progress.{reached-Keeps}
use bluetooth_le.Gatt.Flags.{has, prop_notify, prop_indicate}
use bluetooth_le.Gatt.Characteristic.Notify.{IsAllowed}
use bluetooth_le.Gatt.Locks.{Shared}
use bluetooth_le.Gatt.Locks.Operations.{Operation}
use bluetooth_le.Gatt.Locks.Order.{Law, mutexes, Keeps, HasReader}
use bluetooth_le.Gatt.Locks.Freedom.{all, keeps_reader, script, script-Ordered}

abbrev bits_allow : ℕ → Bool
bits_allow ps = has ps prop_notify || has ps prop_indicate

-- The flag is on only if these properties have the bit for notifications or that for indications.
allowed_by : ℕ → Law
allowed_by ps = record {
  properties = ps;
  allows = λ b. b ≡ true → bits_allow ps ≡ true;
  off = λ e. absurd (true≢false (sym e));
  on = λ e _. e;
}

begun-Keeps :
    (s : Shared)
    → HasReader s
    → IsAllowed s.characteristic
    → Keeps (allowed_by s.characteristic.properties) s
unfolding HasReader allowed_by
begun-Keeps s reader allowed = record { reader = reader; same = refl; allowed = allowed }

kept-IsAllowed : (ps : ℕ) (s : Shared) → Keeps (allowed_by ps) s → IsAllowed s.characteristic
unfolding allowed_by
kept-IsAllowed ps s k e = ap bits_allow k.same ∙ k.allowed e

-- Any number of threads use a characteristic and its descriptor, each by any list of the functions
-- that lock its mutexes, and none takes the read callback away, which the characteristic has. If at
-- the start the characteristic notifies only if its properties have the bit for notifications or
-- that for indications, then this is so in every state the threads can reach, also in the middle of
-- their functions.
pub scripts-IsAllowed :
    (env : Environment) (n : ℕ) (scripts : ℕ → List Operation) (s : Shared) (t : System Shared)
    → HasReader s
    → IsAllowed s.characteristic
    → ((i : ℕ) → all keeps_reader (scripts i) ≡ true)
    → Reach n (init s (λ i. script env (scripts i))) t
    → IsAllowed t.shared.characteristic
scripts-IsAllowed env n scripts s t reader allowed keep r =
    let ps = s.characteristic.properties in
    kept-IsAllowed ps t.shared (
      reached-Keeps mutexes (Keeps (allowed_by ps)) n s (λ i. script env (scripts i)) t
        (begun-Keeps s reader allowed)
        (λ i l. script-Ordered env (allowed_by ps) (scripts i) (keep i)) r)
