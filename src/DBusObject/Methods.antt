-- ===== src/DBusObject/Methods.antt =====
-- The table of method handlers as methods are added.
use bluetooth_le.Prelude.{
  ◌≡◌, refl, ap, ◌∙◌, false, ◌&&◌, Option, some, Text, text_eq, if◌then◌else◌, Dict, find, insert,
  find-insert, Bool-cases, inl, inr, text_eq_sound,
}
use bluetooth_le.DBusObject.{DBusObject, entry, add_method}

-- The handler that an incoming call finds.
abbrev pub handler : {G T F : Type 0} → Text → Text → DBusObject G T F → Option F
handler interface method o = find method (entry (find interface o.method_handlers))

find-entry :
    {F : Type 0} (i j m n : Text) (f : F) (table : Dict (Dict F))
    → find n
        (entry (if text_eq i j then some (insert m f (entry (find i table))) else find j table))
      ≡ (if text_eq i j && text_eq m n then some f else find n (entry (find j table)))
unfolding entry
find-entry i j m n f table = elim (Bool-cases (text_eq i j)) [
  | inl e ↦ rw e (
      find-insert m n f (entry (find i table))
      ∙ ap (λ k. if text_eq m n then some f else find n (entry (find k table)))
          (text_eq_sound i j e))
  | inr e ↦ rw e refl
]

-- A method that is added to an object that is not registered is found by calls of its interface and
-- name, in the place of one that was there; all other calls find what they found before.
pub handler-add_method :
    {G T F : Type 0} (interface method other other_method : Text) (f : F) (o : DBusObject G T F)
    → o.registered ≡ false
    → handler other other_method (add_method interface method f o).1 ≡ (
        if text_eq interface other && text_eq method other_method
        then some f
        else handler other other_method o)
unfolding add_method
handler-add_method interface method other other_method f o e =
    rw (e, find-insert) (find-entry interface other method other_method f o.method_handlers)
