-- ===== src/DBusMethod/Invoking.antt =====
-- src/DBusMethod.cpp: how a call of a method is answered.
use mathlib.Core.List.{Memᴰ}
use mathlib.Core.List.Memᴰ.{not-nil, cases_cons}
use bluetooth_le.Prelude.{
  ℕ, suc, ◌≡◌, ◌≢◌, refl, sym, ap, ◌∙◌, subst, Bool, true, false, List, [], ◌∷◌, ◌++◌, Option, none,
  some, Text, codes, if◌then◌else◌, All, Bool-cases, inl, inr, ==_iff,
}
use bluetooth_le.Print.{c_str}
use bluetooth_le.Gio.{Variant, History, return_dbus_error}
use bluetooth_le.Gio.Replies.{replies}
use bluetooth_le.DBusTypes.{DBusArgument, DBusMethodCall}
use bluetooth_le.DBusMethod.{
  Types, DBusMethod, get_input_arguments, validate_arguments, handle_error, finish, invoke,
}
use bluetooth_le.DBusMethod.Signatures.{Fits, validate_arguments_iff}

abbrev has_thrown : Option Text → Bool
has_thrown none = false
has_thrown (some what) = true

All-Mem :
    (P : DBusArgument → Type 0) (xs : List DBusArgument) (a : DBusArgument)
    → Memᴰ a xs
    → All P xs
    → P a
All-Mem P [] a m h = absurd (not-nil m)
All-Mem P (x ∷ xs) a m (h, hs) = elim (cases_cons m) [
  | inl e ↦ subst P (sym e) h
  | inr k ↦ All-Mem P xs a k hs
]

-- Two inputs with different signatures fit no parameters.
mixed_refused :
    (types : Types) (p : Variant) (m : DBusMethod) (a b : DBusArgument)
    → Memᴰ a (get_input_arguments m)
    → Memᴰ b (get_input_arguments m)
    → c_str a.signature ≢ c_str b.signature
    → validate_arguments types (some p) m ≡ false
mixed_refused types p m a b ma mb d = elim (Bool-cases (validate_arguments types (some p) m)) [
  | inl e ↦
      (let fits = (validate_arguments_iff types p m).0 e in
        let fa = All-Mem (Fits types p) (get_input_arguments m) a ma fits in
        let fb = All-Mem (Fits types p) (get_input_arguments m) b mb fits in
        absurd (d (fa.1 ∙ sym fb.1)))
  | inr e ↦ e
]

-- A method with two inputs whose signatures differ cannot be called with parameters: whatever they are,
-- the callback is not run, and an invocation is answered with the error InvalidArgs.
pub invoke_mixed :
    (types : Types) (m : DBusMethod) (a b : DBusArgument) (call : DBusMethodCall) (p : Variant)
    (i : ℕ) (h : History)
    → Memᴰ a (get_input_arguments m)
    → Memᴰ b (get_input_arguments m)
    → c_str a.signature ≢ c_str b.signature
    → call.parameters ≡ some p
    → call.invocation ≡ some i
    → invoke types call m h
      ≡ return_dbus_error i
          (codes "org.freedesktop.DBus.Error.InvalidArgs")
          (codes "Method arguments do not match signature")
        ∷ h
unfolding invoke handle_error c_str
invoke_mixed types m a b call p i h ma mb d ep ei =
    rw (ep, ei, mixed_refused types p m a b ma mb d) refl

-- The callback answers the invocation once if it returns and not at all if it throws.
abbrev pub AnswersUnlessThrows : DBusMethod → DBusMethodCall → ℕ → Type 0
AnswersUnlessThrows m call i =
    (h : History)
    → replies i (m.callback call h).0
      ≡ (if has_thrown (m.callback call h).1 then replies i h else suc (replies i h))

error_answers :
    (i : ℕ) (name message : Text) (h : History)
    → replies i (handle_error (some i) name message h) ≡ suc (replies i h)
unfolding handle_error
error_answers i name message h = rw ((==_iff i i).1 refl) refl

finish_answers :
    (i : ℕ) (r : History × Option Text) (n : ℕ)
    → replies i r.0 ≡ (if has_thrown r.1 then n else suc n)
    → replies i (finish (some i) r) ≡ suc n
unfolding finish
finish_answers i (h, none) n e = e
finish_answers i (h, some what) n e =
    error_answers i (codes "Failed") (codes "Method execution failed: " ++ what) h ∙ ap suc e

-- A call with an invocation is answered exactly once, whether its parameters are refused or the
-- callback throws or returns, for a callback that answers just if it returns.
pub invoke_answers :
    (types : Types) (m : DBusMethod) (call : DBusMethodCall) (i : ℕ) (h : History)
    → call.invocation ≡ some i
    → AnswersUnlessThrows m call i
    → replies i (invoke types call m h) ≡ suc (replies i h)
unfolding invoke
invoke_answers types m call i h e w =
    elim (Bool-cases (validate_arguments types call.parameters m)) [
      | inl v ↦ rw v (
          ap (λ j. replies i (finish j (m.callback call h))) e
          ∙ finish_answers i (m.callback call h) (replies i h) (w h))
      | inr v ↦ rw v (
          ap (λ j. replies i (handle_error j (codes "InvalidArgs") message h)) e
          ∙ error_answers i (codes "InvalidArgs") message h)
    ]
  where
    message : Text
    message = codes "Method arguments do not match signature"
