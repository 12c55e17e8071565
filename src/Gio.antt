-- ===== src/Gio.antt =====
-- What the program uses of GLib and GIO, which stand outside the repository: the values it builds
-- (`GVariant`), the calls it makes, and an environment that answers them. An answer may depend on
-- every call made before, so the environment may lose the connection or refuse a call at any time.
pub mod Sample
pub mod Replies
use bluetooth_le.Prelude.{
  ℕ, Bool, true, false, List, Option, none, some, Text, codes, if◌then◌else◌,
}

-- A property's value, by the function that builds it.
pub data Value : Type 0 where
  string : Text → Value
  object_path : Text → Value
  boolean : Bool → Value
  string_array : List Text → Value
  object_path_array : List Text → Value
  bytes : Text → Value

-- `g_variant_get_type_string`
unfoldable pub type_string : Value → Text
type_string (string s) = codes "s"
type_string (object_path p) = codes "o"
type_string (boolean b) = codes "b"
type_string (string_array l) = codes "as"
type_string (object_path_array l) = codes "ao"
type_string (bytes b) = codes "ay"

-- a{sv}, a{sa{sv}} and a{oa{sa{sv}}}
abbrev pub Properties : Type 0
Properties = List (Text × Value)

abbrev pub Interfaces : Type 0
Interfaces = List (Text × Properties)

abbrev pub Objects : Type 0
Objects = List (Text × Interfaces)

pub data Variant : Type 0 where
  value : Value → Variant
  -- (sa{sv}as) with no invalidated property
  properties_changed : Text → Text → Value → Variant
  -- a{oa{sa{sv}}}
  objects : Objects → Variant
  -- (o), (oa{sv}) with no option, and (su)
  object_only : Text → Variant
  object_options : Text → Variant
  name_flags : Text → ℕ → Variant

pub data ErrorCode : Type 0 where
  failed invalid_args not_supported : ErrorCode

-- A call of GLib, or of a callback that the user of the library has set.
pub data Event : Type 0 where
  get_bus : Event
  is_closed : Event
  call_sync : Text → Text → Text → Text → Option Variant → Event
  emit_signal : Text → Text → Text → Option Variant → Event
  -- with the number that GIO answers, 0 for a failure
  register_interface : Text → Text → ℕ → Event
  unregister_object : ℕ → Event
  signal_subscribe : Text → Text → Text → Text → Event
  signal_unsubscribe : ℕ → Event
  -- the calls of `g_dbus_method_invocation_return_value`, with a value that need not be the tuple that
  -- GIO asks for, and of the two functions that return an error
  return_value : ℕ → Option Variant → Event
  return_error : ℕ → ErrorCode → Text → Event
  return_dbus_error : ℕ → Text → Text → Event
  read_callback : Event
  write_callback : Text → Event
  notify_callback : Event
  signal_handler : ℕ → Text → Variant → Event

-- The calls so far, the latest first.
abbrev pub History : Type 0
History = List Event

pub record Environment : Type 0 where
  -- `g_bus_get_sync` gives a connection
  pub gives_bus : History → Bool
  -- `g_dbus_connection_is_closed`
  pub closed : History → Bool
  -- `g_dbus_connection_call_sync`; `none` is an error
  pub reply : History → Event → Option Variant
  -- `g_dbus_connection_emit_signal`
  pub emits : History → Event → Bool
  -- `g_dbus_node_info_new_for_xml` finds these interfaces; `none` is an error
  pub parses : Text → Option (List Text)
  -- `g_dbus_connection_register_object`; 0 is an error
  pub registers : History → Text → Text → ℕ
  -- `g_dbus_connection_unregister_object`
  pub unregisters : History → ℕ → Bool
  -- `g_dbus_connection_signal_subscribe`
  pub subscribes : History → Event → ℕ
  -- a builder of values does not return a null pointer
  pub builds : Value → Bool
  -- the parameters that `g_variant_new` makes for a changed property, of an array of that property and
  -- a second array without elements; both builders have the type of any array, and GLib documents that
  -- it is an error to end the second one, so there need not be a value
  pub property_parameters : Text → Text → Value → Option Variant
  -- `g_variant_get_fixed_array` at elements of one byte
  pub fixed_array : Variant → Text

-- What a C++ function that may throw `std::exception` does.
pub data Outcome {ℓ} (A : Type ℓ) : Type ℓ where
  returns : A → Outcome A
  throws : Text → Outcome A

-- GIO documents that `g_dbus_method_invocation_return_value` takes a tuple or a null pointer, and that
-- another value is an error.
abbrev pub is_tuple : Option Variant → Bool
is_tuple none = true
is_tuple (some (value v)) = false
is_tuple (some (objects os)) = false
is_tuple (some (properties_changed interface name v)) = true
is_tuple (some (object_only path)) = true
is_tuple (some (object_options path)) = true
is_tuple (some (name_flags name flags)) = true

abbrev pub build : Environment → Value → Option Value
build env v = if env.builds v then some v else none
