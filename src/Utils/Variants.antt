-- ===== src/Utils/Variants.antt =====
-- src/Utils.cpp: the functions that build values of GLib. A pointer to characters is `none` where it is
-- null, and the bytes up to its NUL byte else. Integers are stored low byte first; one with a sign is
-- given by its two's complement. GLib copies a text up to its first NUL byte.
use native.Mathlib.Nat.{pow-suc}
use bluetooth_le.Prelude.{
  ℕ, zero, suc, ◌+◌, ◌*◌, ◌/◌, ◌%◌, ◌^◌, ◌<◌, ◌≡◌, refl, ap, Bool, List, [], ◌∷◌, Option, none,
  some, Text, map, length, arith,
}
use bluetooth_le.Print.{c_str}
use bluetooth_le.ObjectPath.{DBusObjectPath}
use bluetooth_le.Gio.{Value, string, object_path, boolean, string_array, bytes}

unfoldable pub gvariant_from_string : Text → Value
unfolding c_str
gvariant_from_string str = string (c_str str)

-- The form with a variable number of arguments: up to the first null pointer.
pub before_null : List (Option Text) → List Text
before_null [] = []
before_null (none ∷ rest) = []
before_null (some str ∷ rest) = c_str str ∷ before_null rest

unfoldable pub gvariant_from_arguments : List (Option Text) → Value
unfolding before_null
gvariant_from_arguments args = string_array (before_null args)

-- From a vector of strings.
unfoldable pub gvariant_from_string_array : List Text → Value
unfolding c_str
gvariant_from_string_array arr = string_array (map c_str arr)

pub without_null : List (Option Text) → List Text
without_null [] = []
without_null (none ∷ rest) = without_null rest
without_null (some str ∷ rest) = c_str str ∷ without_null rest

-- From a vector of pointers: without the null pointers.
unfoldable pub gvariant_from_pointers : List (Option Text) → Value
unfolding without_null
gvariant_from_pointers arr = string_array (without_null arr)

unfoldable pub gvariant_from_object : DBusObjectPath → Value
unfolding c_str
gvariant_from_object path = object_path (c_str path.path)

unfoldable pub gvariant_from_boolean : Bool → Value
gvariant_from_boolean b = boolean b

-- From a pointer to characters, up to its NUL byte.
unfoldable pub gvariant_from_c_string : Option Text → Value
unfolding c_str
gvariant_from_c_string none = bytes []
gvariant_from_c_string (some str) = bytes (c_str str)

-- From a string or a vector, with all its bytes.
unfoldable pub gvariant_from_byte_array : Text → Value
gvariant_from_byte_array data' = bytes data'

-- The memory of an integer of `w` bytes.
pub little_endian : ℕ → ℕ → Text
little_endian zero n = []
little_endian (suc w) n = n % 256 ∷ little_endian w (n / 256)

-- From an integer of 1, 2, 4 or 8 bytes.
unfoldable pub gvariant_from_integer : ℕ → ℕ → Value
unfolding little_endian
gvariant_from_integer w n = gvariant_from_byte_array (little_endian w n)

-- The number that bytes stand for, the low one first.
pub byte_value : Text → ℕ
byte_value [] = 0
byte_value (b ∷ rest) = b + 256 * byte_value rest

length-little_endian : (w n : ℕ) → length (little_endian w n) ≡ w
unfolding little_endian
length-little_endian zero n = refl
length-little_endian (suc w) n = ap suc (length-little_endian w (n / 256))

byte_value-little_endian : (w n : ℕ) → n < 256 ^ w → byte_value (little_endian w n) ≡ n
unfolding little_endian byte_value
byte_value-little_endian zero n h = omega arith
byte_value-little_endian (suc w) n h =
    omega (arith, byte_value-little_endian w (n / 256) (omega (arith, h, pow-suc 256 w)))

-- The array of bytes that holds an integer which fits `w` bytes has `w` bytes, and they stand for the
-- integer.
pub gvariant_from_integer_read :
    (w n : ℕ)
    → n < 256 ^ w
    → (data' : Text) × (gvariant_from_integer w n ≡ bytes data')
      × (length data' ≡ w)
      × (byte_value data' ≡ n)
unfolding gvariant_from_integer gvariant_from_byte_array
gvariant_from_integer_read w n h =
    (little_endian w n, refl, length-little_endian w n, byte_value-little_endian w n h)
