-- ===== src/Xml.antt =====
-- src/DBusXml.cpp: introspection XML. Failure to allocate memory, which the handlers of exceptions
-- are for, is not modelled.
pub mod Tests
pub mod Escape
pub mod Markup
use bluetooth_le.Prelude.{
  ℕ, ◌+◌, ◌*◌, Bool, true, false, ◌&&◌, List, [], ◌∷◌, ◌++◌, Text, codes, ◌==◌, if◌then◌else◌,
  replicate,
}
use bluetooth_le.DBusTypes.{DBusArgument, DBusProperty, DBusMethodCall, DBusSignal}

-- What the loop of `escape` appends for a character.
pub escape_char : ℕ → Text
escape_char c =
    if c == b'&'
    then codes "&amp;"
    else if c == b'\''
    then codes "&apos;"
    else if c == b'"'
    then codes "&quot;"
    else if c == b'<'
    then codes "&lt;"
    else if c == b'>'
    then codes "&gt;"
    else c ∷ []

pub escape_from : Text → Text → Text
escape_from result [] = result
escape_from result (c ∷ s) = escape_from (result ++ escape_char c) s

unfoldable pub escape : Text → Text
unfolding escape_from escape_char
escape s = escape_from [] s

unfoldable pub indent : ℕ → Text
indent level = replicate (level * 2) b' '

-- The value of an attribute, in the quotes that the code writes around it.
abbrev pub quoted : Text → Text
quoted s = b'\'' ∷ escape s ++ b'\'' ∷ []

pub access : Bool → Bool → Text
access readable writable =
    if readable && writable
    then codes "readwrite"
    else if readable
    then codes "read"
    else if writable
    then codes "write"
    else []

unfoldable pub create_property : {G T : Type 0} → DBusProperty G T → ℕ → Text
unfolding access
create_property p level =
    indent level
    ++ codes "<property name="
    ++ quoted p.name
    ++ codes " type="
    ++ quoted p.signature
    ++ codes " access='"
    ++ access p.readable p.writable
    ++ codes "'"
    ++ (if p.emits_changed_signal
        then codes ">\n"
          ++ indent (level + 1)
          ++ codes
              "<annotation name='org.freedesktop.DBus.Property.EmitsChangedSignal' value='true'/>\n"
          ++ indent level
          ++ codes "</property>\n"
        else codes "/>\n")

-- One argument of a method; `direction` is " direction='in'" or " direction='out'", and empty for
-- an argument of a signal.
pub create_argument : Text → ℕ → DBusArgument → Text
create_argument direction level a =
    indent (level + 1)
    ++ codes "<arg name="
    ++ quoted a.name
    ++ codes " type="
    ++ quoted a.signature
    ++ direction
    ++ codes "/>\n"

-- The loops over lists: the texts of the entries, one after the other.
unfoldable pub each {ℓ} : {A : Type ℓ} → (A → Text) → List A → Text
each f [] = []
each f (x ∷ xs) = f x ++ each f xs

unfoldable pub create_method : Text → List DBusArgument → List DBusArgument → ℕ → Text
unfolding create_argument each
create_method name in_args out_args level =
    indent level
    ++ codes "<method name="
    ++ quoted name
    ++ codes ">\n"
    ++ each (create_argument (codes " direction='in'") level) in_args
    ++ each (create_argument (codes " direction='out'") level) out_args
    ++ indent level
    ++ codes "</method>\n"

unfoldable pub create_signal : DBusSignal → ℕ → Text
unfolding create_argument each
create_signal s level =
    indent level
    ++ codes "<signal name="
    ++ quoted s.name
    ++ codes ">\n"
    ++ each (create_argument [] level) s.arguments
    ++ indent level
    ++ codes "</signal>\n"

unfoldable pub create_interface :
    {G T : Type 0}
    → Text
    → List (DBusProperty G T)
    → List DBusMethodCall
    → List DBusSignal
    → ℕ
    → Text
unfolding each
create_interface name properties methods signals level =
    indent (level + 1)
    ++ codes "<interface name="
    ++ quoted name
    ++ codes ">\n"
    ++ each (λ p. create_property p (level + 2)) properties
    ++ each (λ m. create_method m.method [] [] (level + 2)) methods
    ++ each (λ s. create_signal s (level + 2)) signals
    ++ indent (level + 1)
    ++ codes "</interface>\n"
