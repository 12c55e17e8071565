-- ===== src/DBusMessage/Tests.antt =====
-- Arguments of a message at concrete inputs, with a builder like GLib's.
use mathlib.Core.Bool.{false≢true}
use bluetooth_le.Prelude.{
  ℕ, ◌<◌, ◌≡◌, ◌↔◌, refl, sym, ap, subst, ◌∙◌, Bool, true, false, ◌||◌, [], ◌∷◌, ◌++◌, none, some,
  Text, codes, length, text_eq, ◌==◌, ==_iff, if◌then◌else◌, Bool-cases, inl, inr,
}
use bluetooth_le.DBusMessage.{
  leaf, GMessage, Glib, any_tuple, type_string, type_strings, to_variants, add_arguments_list,
}
use bluetooth_le.DBusMessage.Arguments.{IsBuilder, add_arguments_list_iff}

abbrev message : GMessage
message = record {
  message_type = 1;
  interface = none;
  path = some (codes "/a");
  member = some (codes "Set");
  destination = none;
  sender = none;
  body = none;
}

abbrev init : Text → Text
init [] = []
init (c ∷ []) = []
init (c ∷ d ∷ t) = c ∷ init (d ∷ t)

-- The types of the members of a tuple's type.
abbrev inner : Text → Text
inner [] = []
inner (c ∷ t) = init t

abbrev starts : Text → Text → Bool
starts [] t = true
starts (c ∷ p) [] = false
starts (c ∷ p) (d ∷ t) = let rest = starts p t in if c == d then rest else false

init-snoc : (t : Text) (x : ℕ) → init (t ++ x ∷ []) ≡ t
init-snoc [] x = refl
init-snoc (c ∷ []) x = refl
init-snoc (c ∷ d ∷ t) x = ap (◌∷◌ c) (init-snoc (d ∷ t) x)

starts-split : (p t : Text) → starts p t ≡ true → (rest : Text) × (t ≡ p ++ rest)
starts-split [] t h = (t, refl)
starts-split (c ∷ p) [] h = absurd (false≢true h)
starts-split (c ∷ p) (d ∷ t) h = elim (Bool-cases (c == d)) [
  | inl e ↦
      (let (rest, split) =
          starts-split p t (subst (λ x. (if x then starts p t else false) ≡ true) e h) in
        (rest, ap (λ x. x ∷ t) (sym ((==_iff c d).0 e)) ∙ ap (◌∷◌ c) split))
  | inr e ↦ absurd (false≢true (subst (λ x. (if x then starts p t else false) ≡ true) e h))
]

-- A builder for any tuple takes every value, and one for a definite type those of its members in turn.
abbrev glib : Glib
glib = record {
  takes = λ t items v.
      text_eq t any_tuple || starts (type_strings (to_variants items) ++ type_string v) (inner t);
  ends = λ t items. text_eq t any_tuple || text_eq (type_strings (to_variants items)) (inner t);
  new_method_call = λ d p i m. some message;
  new_method_reply = λ i. none;
  new_signal = λ p i m. none;
  new_method_error = λ i n m. none;
}

glib-IsBuilder : IsBuilder glib
unfolding text_eq type_string type_strings
glib-IsBuilder = record {
  any = λ items v. refl;
  any_end = λ items. refl;
  first = λ members v e.
      starts-split (type_string v) (type_strings members)
        (subst (λ t. starts (type_string v) t ≡ true) (init-snoc (type_strings members) (b')')) e);
}

add_arguments_list_iff_example :
    (add_arguments_list glib
        (leaf (codes "s") (codes "a") ∷ leaf (codes "i") (codes "7") ∷ [])
        message
      ≡ none)
    ↔ (1 < length (leaf (codes "s") (codes "a") ∷ leaf (codes "i") (codes "7") ∷ []))
add_arguments_list_iff_example =
    add_arguments_list_iff glib (leaf (codes "s") (codes "a") ∷ leaf (codes "i") (codes "7") ∷ [])
      message glib-IsBuilder refl
