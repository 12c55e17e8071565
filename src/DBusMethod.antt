-- ===== src/DBusMethod.antt =====
-- src/DBusMethod.cpp: a method with its arguments, the test of a call's parameters and the call of its
-- callback, and src/DBusError.cpp. The type strings of GLib are a parameter. The text that `invoke`
-- logs is not modelled.
pub mod Signatures
pub mod Invoking
pub mod Errors
pub mod Tests
use bluetooth_le.Prelude.{
  ℕ, ◌*◌, Bool, true, false, List, [], ◌∷◌, ◌++◌, Option, none, some, Text, codes, if◌then◌else◌,
  text_eq, replicate, Dict,
}
use bluetooth_le.Print.{c_str}
use bluetooth_le.Gio.{Variant, History, Outcome, returns, throws, return_dbus_error}
use bluetooth_le.DBusTypes.{DBusArgument, DBusMethodCall}

-- `g_variant_type_new` accepts a text, and `g_variant_get_type` of a value as a type string, by which
-- types are compared.
pub record Types : Type 0 where
  pub accepts : Text → Bool
  pub type_of : Variant → Text

-- A callback makes calls of its own, and may throw an exception with a text.
abbrev pub Callback : Type 0
Callback = DBusMethodCall → History → History × Option Text

-- `owner` is a number for an interface.
pub record DBusMethod : Type 0 where
  pub owner : ℕ
  pub name : Text
  pub arguments : List DBusArgument
  pub callback : Callback

-- The constructor; `none` is a null pointer and an empty function.
unfoldable pub new_method :
    Option ℕ → Text → List DBusArgument → Option Callback → Outcome DBusMethod
new_method none name args callback = throws (codes "DBusMethod owner cannot be null")
new_method (some owner) [] args callback = throws (codes "DBusMethod name cannot be empty")
new_method (some owner) (c ∷ name) args none = throws (codes "DBusMethod callback cannot be null")
new_method (some owner) (c ∷ name) args (some callback) =
    returns (record { owner = owner; name = c ∷ name; arguments = args; callback = callback })

-- The arguments of one direction, in their order.
pub in_direction : Text → List DBusArgument → List DBusArgument
unfolding text_eq
in_direction d [] = []
in_direction d (a ∷ as') =
    if text_eq a.direction d then a ∷ in_direction d as' else in_direction d as'

unfoldable pub get_input_arguments : DBusMethod → List DBusArgument
unfolding in_direction
get_input_arguments m = in_direction (codes "in") m.arguments

unfoldable pub get_output_arguments : DBusMethod → List DBusArgument
unfolding in_direction
get_output_arguments m = in_direction (codes "out") m.arguments

-- `handleError`, which does nothing without an invocation.
unfoldable pub handle_error : Option ℕ → Text → Text → History → History
unfolding c_str
handle_error none name message h = h
handle_error (some i) name message h =
    return_dbus_error i (c_str (codes "org.freedesktop.DBus.Error." ++ name)) (c_str message) ∷ h

abbrev is_empty : List DBusArgument → Bool
is_empty [] = true
is_empty (a ∷ inputs) = false

-- What is done once the callback has returned or thrown.
pub finish : Option ℕ → History × Option Text → History
unfolding handle_error
finish invocation (h, none) = h
finish invocation (h, some what) =
    handle_error invocation (codes "Failed") (codes "Method execution failed: " ++ what) h

module _ (types : Types) where
  -- The loop of `checkArgumentTypes` over the inputs.
  pub check_types : Text → List DBusArgument → Bool
  unfolding text_eq c_str
  check_types param_type [] = true
  check_types param_type (a ∷ inputs) =
      if types.accepts (c_str a.signature)
      then (if text_eq (c_str a.signature) param_type then check_types param_type inputs else false)
      else false

  unfoldable pub check_argument_types : Variant → DBusMethod → Bool
  unfolding check_types get_input_arguments
  check_argument_types parameters m = check_types (types.type_of parameters) (get_input_arguments m)

  unfoldable pub validate_arguments : Option Variant → DBusMethod → Bool
  unfolding get_input_arguments check_argument_types
  validate_arguments none m = is_empty (get_input_arguments m)
  validate_arguments (some parameters) m = check_argument_types parameters m

  unfoldable pub invoke : DBusMethodCall → DBusMethod → History → History
  unfolding validate_arguments handle_error finish
  invoke call m h =
      if validate_arguments call.parameters m
      then finish call.invocation (m.callback call h)
      else handle_error call.invocation (codes "InvalidArgs")
          (codes "Method arguments do not match signature") h

-- An argument in the introspection data; nothing is escaped.
unfoldable pub format_argument : Text → DBusArgument → Text
format_argument indent a =
    indent
    ++ codes "<arg"
    ++ named a.name
    ++ codes " type=\""
    ++ a.signature
    ++ codes "\" direction=\""
    ++ a.direction
    ++ codes "\""
    ++ described a.description
  where
    named : Text → Text
    named [] = []
    named (c ∷ name) = codes " name=\"" ++ (c ∷ name) ++ codes "\""

    described : Text → Text
    described [] = codes "/>\n"
    described (c ∷ text) =
        codes ">\n"
        ++ indent
        ++ codes "  <annotation name=\"org.freedesktop.DBus.Description\" value=\""
        ++ (c ∷ text)
        ++ codes "\"/>\n"
        ++ indent
        ++ codes "</arg>\n"

unfoldable pub format_arguments_for_xml : List DBusArgument → ℕ → Text
unfolding format_argument
format_arguments_for_xml [] indent_level = []
format_arguments_for_xml (a ∷ args) indent_level =
    format_argument (replicate (indent_level * 2) b' ') a
    ++ format_arguments_for_xml args indent_level

pub format_annotations : Dict Text → Text
format_annotations [] = []
format_annotations ((name, value) ∷ rest) =
    codes "  <annotation name=\""
    ++ name
    ++ codes "\" value=\""
    ++ value
    ++ codes "\"/>\n"
    ++ format_annotations rest

-- With the annotations of the configuration.
unfoldable pub generate_method_xml : Dict Text → DBusMethod → Text
unfolding get_input_arguments get_output_arguments format_arguments_for_xml format_annotations
generate_method_xml annotations m =
    codes "<method name=\""
    ++ m.name
    ++ codes "\">\n"
    ++ format_arguments_for_xml (get_input_arguments m) 1
    ++ format_arguments_for_xml (get_output_arguments m) 1
    ++ format_annotations annotations
    ++ codes "</method>\n"

-- src/DBusError.cpp: an error from a `GError`, given by the name of its domain and its message, and
-- its text.
pub record DBusError : Type 0 where
  pub name : Text
  pub message : Text

abbrev pub or_empty : Option Text → Text
or_empty none = []
or_empty (some t) = t

unfoldable pub from_g_error : Option (Text × Option Text) → DBusError
from_g_error (some (domain, message)) = record { name = domain; message = or_empty message }
from_g_error none = record {
  name = codes "org.freedesktop.DBus.Error.Failed";
  message = codes "Unknown error";
}

-- `toGError`, as the name of its domain and its message.
unfoldable pub to_g_error : DBusError → Text × Option Text
unfolding c_str
to_g_error e = (c_str e.name, some (c_str e.message))

unfoldable pub error_to_string : DBusError → Text
error_to_string e = e.name ++ codes ": " ++ e.message
