-- ===== src/Gatt/Flags/Agreement.antt =====
-- The lists of flags that BlueZ gets from the managed objects and those that the getters give.
use bluetooth_le.Prelude.{
  ℕ, ◌≡◌, ◌≢◌, ◌↔◌, refl, ap, ◌∙◌, Bool, true, false, ◌||◌, List, [], ◌∷◌, Text, if◌then◌else◌,
  arith, ◌+◌, length, length-append,
}
use mathlib.Core.Bool.{true≢false}
use bluetooth_le.Gatt.Flags.{
  has, push_if, characteristic_flags, managed_characteristic_flags, managed_descriptor_flags,
  descriptor_flags, or_default, perm_read_authenticated, perm_write_authenticated,
}

-- The permissions that ask for authentication.
abbrev pub authenticated : ℕ → Bool
authenticated perms = has perms perm_read_authenticated || has perms perm_write_authenticated

length-push_if :
    (test : Bool) (name : Text) (flags : List Text)
    → length (push_if test name flags) ≡ length flags + (if test then 1 else 0)
length-push_if true name flags = length-append flags (name ∷ [])
length-push_if false name flags = omega arith

grown :
    (r w : Bool) (f g : Text) (flags : List Text)
    → length (push_if w g (push_if r f flags))
      ≡ length flags + (if r then 1 else 0) + (if w then 1 else 0)
grown r w f g flags =
    length-push_if w g (push_if r f flags)
    ∙ ap (λ n. n + (if w then 1 else 0)) (length-push_if r f flags)

pushed_iff :
    (r w : Bool) (f g : Text) (flags : List Text)
    → (push_if w g (push_if r f flags) ≡ flags) ↔ ((r || w) ≡ false)
pushed_iff true w f g flags =
    (λ e. ground (arith, grown true w f g flags, ap length e), λ e. elim (true≢false e) [ ])
pushed_iff false true f g flags =
    (λ e. ground (arith, grown false true f g flags, ap length e), λ e. elim (true≢false e) [ ])
pushed_iff false false f g flags = (λ e. refl, λ e. refl)

-- The flags of a characteristic in the managed objects are those that its getter gives exactly if no
-- permission asks for authentication.
pub managed_characteristic_flags_iff :
    (p perms : ℕ)
    → (managed_characteristic_flags p perms ≡ characteristic_flags p perms)
      ↔ (authenticated perms ≡ false)
unfolding managed_characteristic_flags characteristic_flags
managed_characteristic_flags_iff p perms =
    pushed_iff (has perms perm_read_authenticated) (has perms perm_write_authenticated) _ _ _

or_default_iff : (l : List Text) → (l ≡ or_default l) ↔ (length l ≢ 0)
unfolding or_default
or_default_iff [] = (λ e h. ground (arith, ap length e), λ h. elim (h refl) [ ])
or_default_iff (f ∷ l) = (λ e. λ h. ground (arith, h), λ h. refl)

-- The flags of a descriptor in the managed objects are those that its getter gives exactly if there
-- are any; the getter then gives what it makes of an empty list.
pub managed_descriptor_flags_iff :
    (perms : ℕ)
    → (descriptor_flags perms ≡ or_default (managed_descriptor_flags perms))
      × ((managed_descriptor_flags perms ≡ descriptor_flags perms)
          ↔ (length (managed_descriptor_flags perms) ≢ 0))
unfolding managed_descriptor_flags descriptor_flags
managed_descriptor_flags_iff perms = (refl, or_default_iff _)
