-- ===== src/DBusMessage/Arguments.antt =====
-- src/DBusMessage.cpp: how many arguments a message can be given.
use mathlib.Core.Option.{none-ne-some}
use bluetooth_le.Prelude.{
  ◌<◌, ◌≡◌, ◌↔◌, refl, sym, ap, true, false, List, [], ◌∷◌, ◌++◌, none, some, Text, codes, length,
  length-append, arith, Bool-cases, inl, inr,
}
use bluetooth_le.DBusMessage.{
  GVariant, GVariants, tuple, cons, nil, type_string, type_strings, any_tuple, GMessage, Glib,
  built, add_argument, add_arguments_list,
}

-- What the code relies on of GLib's builder: one for any tuple takes every value and may be ended after
-- each, and the first value of a builder for the type of a given tuple, which is a definite type, has a
-- type with which the types of the members begin.
pub record IsBuilder (g : Glib) : Type 0 where
  pub any : (items : List GVariant) (v : GVariant) → g.takes any_tuple items v ≡ true
  pub any_end : (items : List GVariant) → g.ends any_tuple items ≡ true
  pub first :
      (members : GVariants) (v : GVariant)
      → g.takes (type_string (tuple members)) [] v ≡ true
      → (rest : Text) × (type_strings members ≡ type_string v ++ rest)

module _ (g : Glib) (ok : IsBuilder g) where
  -- No tuple is the first member of a tuple of its own type.
  own_type_refused : (vs : GVariants) → g.takes (type_string (tuple vs)) [] (tuple vs) ≡ false
  unfolding type_string
  own_type_refused vs = elim (Bool-cases (g.takes (type_string (tuple vs)) [] (tuple vs))) [
    | inl e ↦
        (let (rest, p) = ok.first vs (tuple vs) e in
          let own = type_strings vs in
          let l = ap length p in
          let a = length-append own (codes ")") in
          let b = length-append (own ++ codes ")") rest in absurd (omega (arith, l, a, b)))
    | inr e ↦ e
  ]

  built_again :
      (vs : GVariants) (v : GVariant)
      → built g (type_string (tuple vs)) [] (tuple vs ∷ v ∷ []) ≡ none
  unfolding built
  built_again vs v = rw (own_type_refused vs, built) refl

  built_first : (v : GVariant) → built g any_tuple [] (v ∷ []) ≡ some (cons v nil)
  unfolding built
  built_first v = rw (ok.any [] v, built) (rw (ok.any_end (v ∷ []), built) refl)

  add_again :
      (v : GVariant) (m : GMessage) (vs : GVariants) → m.body ≡ some vs → add_argument g v m ≡ none
  unfolding add_argument type_string
  add_again v m vs e = rw e (rw (built_again vs v) refl)

  add_first :
      (v : GVariant) (m : GMessage)
      → m.body ≡ none
      → add_argument g v m ≡ some (record m { body = some (cons v nil) })
  unfolding add_argument
  add_first v m e = rw e (rw (built_first v) refl)

-- Arguments can be added to a message without a body exactly if there is at most one: the second one
-- is added after the body as a whole, which does not fit a builder for its own type.
pub add_arguments_list_iff :
    (g : Glib) (vs : List GVariant) (m : GMessage)
    → IsBuilder g
    → m.body ≡ none
    → (add_arguments_list g vs m ≡ none) ↔ (1 < length vs)
unfolding add_arguments_list
add_arguments_list_iff g [] m ok e =
    ((λ h. absurd (none-ne-some m (sym h))), (λ h. absurd (omega (arith, h))))
add_arguments_list_iff g (v ∷ []) m ok e =
    rw (add_first g ok v m e, add_arguments_list)
      ((λ h. absurd (none-ne-some _ (sym h))), (λ h. absurd (omega (arith, h))))
add_arguments_list_iff g (v ∷ w ∷ vs) m ok e =
    (let m' : GMessage = record m { body = some (cons v nil) } in
      rw (add_first g ok v m e, add_arguments_list)
        (rw (add_again g ok w m' (cons v nil) refl, add_arguments_list)
          ((λ h. omega arith), (λ h. refl))))
