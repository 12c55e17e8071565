-- ===== src/DBusMessage.antt =====
-- src/DBusMessage.cpp: the wrapper of a D-Bus message. GLib's messages and its builder of values are
-- parameters. Where the code breaks a condition that GLib puts on its builder, there is no result. No
-- argument is a null pointer, and the body that a message has is a tuple.
pub mod Arguments
pub mod Tests
use bluetooth_le.Prelude.{
  ℕ, Bool, true, false, List, [], ◌∷◌, ◌++◌, Option, none, some, Text, codes, ◌==◌, if◌then◌else◌,
}
use bluetooth_le.Print.{c_str}
use bluetooth_le.Gio.{Outcome, returns, throws}
use bluetooth_le.DBusMethod.{DBusError, or_empty, error_to_string}

-- A `GVariant`: a tuple, or a value with its type and its content.
mutual
  pub data GVariant : Type 0 where
    leaf : Text → Text → GVariant
    tuple : GVariants → GVariant

  pub data GVariants : Type 0 where
    nil : GVariants
    cons : GVariant → GVariants → GVariants

-- `g_variant_get_type` as a type string.
mutual
  pub type_string : GVariant → Text
  type_string (leaf t content) = t
  type_string (tuple vs) = codes "(" ++ type_strings vs ++ codes ")"

  pub type_strings : GVariants → Text
  type_strings nil = []
  type_strings (cons v vs) = type_string v ++ type_strings vs

-- G_VARIANT_TYPE_TUPLE, the type of any tuple.
abbrev pub any_tuple : Text
any_tuple = codes "r"

abbrev pub to_variants : List GVariant → GVariants
to_variants [] = nil
to_variants (v ∷ vs) = cons v (to_variants vs)

-- What the program reads of a `GDBusMessage`.
pub record GMessage : Type 0 where
  pub message_type : ℕ
  pub interface : Option Text
  pub path : Option Text
  pub member : Option Text
  pub destination : Option Text
  pub sender : Option Text
  pub body : Option GVariants

pub data DBusMessageType : Type 0 where
  method_call method_return error signal : DBusMessageType

pub record Glib : Type 0 where
  -- a builder for a type takes a value as the next one
  pub takes : Text → List GVariant → GVariant → Bool
  -- a builder for a type with these values is complete
  pub ends : Text → List GVariant → Bool
  -- `none` is a null pointer
  pub new_method_call : Text → Text → Text → Text → Option GMessage
  pub new_method_reply : ℕ → Option GMessage
  pub new_signal : Text → Text → Text → Option GMessage
  pub new_method_error : ℕ → Text → Text → Option GMessage

-- A message, or the exception of a `DBusError`, which is given by its text.
abbrev pub created : Text → Option GMessage → Outcome GMessage
created what none =
    throws (
      error_to_string (record { name = codes "org.freedesktop.DBus.Error.Failed"; message = what }))
created what (some m) = returns m

module _ (g : Glib) where
  unfoldable pub create_method_call : Text → Text → Text → Text → Outcome GMessage
  unfolding c_str error_to_string
  create_method_call destination path interface method =
      created (codes "Failed to create method call message")
        (g.new_method_call (c_str destination) (c_str path) (c_str interface) (c_str method))

  unfoldable pub create_method_return : ℕ → Outcome GMessage
  unfolding error_to_string
  create_method_return invocation =
      created (codes "Failed to create method return message") (g.new_method_reply invocation)

  unfoldable pub create_signal : Text → Text → Text → Outcome GMessage
  unfolding c_str error_to_string
  create_signal path interface name =
      created (codes "Failed to create signal message")
        (g.new_signal (c_str path) (c_str interface) (c_str name))

  unfoldable pub create_error : ℕ → DBusError → Outcome GMessage
  unfolding c_str error_to_string
  create_error invocation e =
      created (codes "Failed to create error message")
        (g.new_method_error invocation (c_str e.name) (c_str e.message))

  -- The values are added to a builder for a type one after the other, and the builder is ended.
  pub built : Text → List GVariant → List GVariant → Option GVariants
  built type items [] = if g.ends type items then some (to_variants items) else none
  built type items (v ∷ vs) = elim (g.takes type items v) [
    | true ↦ built type (items ++ v ∷ []) vs
    | false ↦ none
  ]

  -- An existing body is added as one value to a builder for its own type.
  unfoldable pub add_argument : GVariant → GMessage → Option GMessage
  unfolding built type_string
  add_argument v m = elim m.body [
    | none ↦ with_body m (built any_tuple [] (v ∷ []))
    | some vs ↦ with_body m (built (type_string (tuple vs)) [] (tuple vs ∷ v ∷ []))
  ]
    where
      with_body : GMessage → Option GVariants → Option GMessage
      with_body m none = none
      with_body m (some vs) = some (record m { body = some vs })

  unfoldable pub add_arguments_list : List GVariant → GMessage → Option GMessage
  unfolding add_argument
  add_arguments_list [] m = some m
  add_arguments_list (v ∷ vs) m = elim (add_argument v m) [
    | none ↦ none
    | some m' ↦ add_arguments_list vs m'
  ]

abbrev pub get_body : GMessage → Option GVariants
get_body m = m.body

-- The numbers that GIO gives to the types; any other number counts as an error.
unfoldable pub get_type : GMessage → DBusMessageType
get_type m =
    if m.message_type == 1
    then method_call
    else if m.message_type == 2
    then method_return
    else if m.message_type == 3
    then error
    else if m.message_type == 4
    then signal
    else error

abbrev pub get_interface : GMessage → Text
get_interface m = or_empty m.interface

abbrev pub get_path : GMessage → Text
get_path m = or_empty m.path

abbrev pub get_member : GMessage → Text
get_member m = or_empty m.member

abbrev pub get_destination : GMessage → Text
get_destination m = or_empty m.destination

abbrev pub get_sender : GMessage → Text
get_sender m = or_empty m.sender

unfoldable pub get_signature : GMessage → Text
unfolding type_string
get_signature m = elim m.body [ none ↦ [] | some vs ↦ type_string (tuple vs) ]
