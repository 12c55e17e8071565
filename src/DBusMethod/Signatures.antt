-- ===== src/DBusMethod/Signatures.antt =====
-- src/DBusMethod.cpp: which parameters a method takes.
use mathlib.Core.Bool.{true≢false}
use bluetooth_le.Prelude.{
  ◌≡◌, ◌↔◌, refl, sym, ◌∙◌, true, List, [], ◌∷◌, some, text_eq, text_eq_iff, All, Bool-cases, inl,
  inr,
}
use bluetooth_le.Print.{c_str}
use bluetooth_le.Gio.{Variant}
use bluetooth_le.DBusTypes.{DBusArgument}
use bluetooth_le.DBusMethod.{
  Types, DBusMethod, get_input_arguments, check_types, check_argument_types, validate_arguments,
}

-- The signature of one argument is the type of all the parameters together.
abbrev pub Fits : Types → Variant → DBusArgument → Type 0
Fits types p a = (types.accepts (c_str a.signature) ≡ true) × (c_str a.signature ≡ types.type_of p)

check_types_iff :
    (types : Types) (p : Variant) (inputs : List DBusArgument)
    → (check_types types (types.type_of p) inputs ≡ true) ↔ All (Fits types p) inputs
unfolding check_types
check_types_iff types p [] = ((λ e. tt), (λ a. refl))
check_types_iff types p (a ∷ inputs) =
    (let (to, from) = check_types_iff types p inputs in
      let same = text_eq_iff (c_str a.signature) (types.type_of p) in
      elim (Bool-cases (types.accepts (c_str a.signature))) [
        | inl g ↦ elim (Bool-cases (text_eq (c_str a.signature) (types.type_of p))) [
          | inl t ↦ rw (g, t) ((λ e. ((refl, same.0 t), to e)), (λ x. from x.1))
          | inr t ↦
              rw (g, t)
                (
                  (λ e. absurd (true≢false (sym e))),
                  (λ x. absurd (true≢false (sym (same.1 x.0.1) ∙ t))),
                )
        ]
        | inr g ↦ rw g ((λ e. absurd (true≢false (sym e))), (λ x. absurd (true≢false (sym x.0.0))))
      ])

-- Parameters are accepted exactly if each input argument of the method has a signature that GLib takes
-- for a type, and this type is the one of all the parameters together.
pub validate_arguments_iff :
    (types : Types) (p : Variant) (m : DBusMethod)
    → (validate_arguments types (some p) m ≡ true) ↔ All (Fits types p) (get_input_arguments m)
unfolding validate_arguments check_argument_types
validate_arguments_iff types p m = check_types_iff types p (get_input_arguments m)
