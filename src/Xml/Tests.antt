-- ===== src/Xml/Tests.antt =====
-- Markup at concrete inputs.
use bluetooth_le.Prelude.{◌≡◌, refl, true, false, [], ◌∷◌, none, some, codes}
use bluetooth_le.DBusTypes.{DBusProperty}
use bluetooth_le.Xml.{each, escape, create_interface}
use bluetooth_le.Xml.Escape.{unescape, normalised, unescape-escape}
use bluetooth_le.Xml.Markup.{marks, marks-create_interface}

abbrev property : DBusProperty (Unit {0}) (Unit {0})
property = record {
  name = codes "A'<B>";
  signature = codes "s";
  readable = true;
  writable = false;
  emits_changed_signal = false;
  getter = none;
  setter = none;
}

ampersand : escape (codes "a&b") ≡ codes "a&amp;b"
unfolding escape
ampersand = refl

unescape-escape_example :
    unescape false (escape (codes "<a href='b'>")) ≡ some (normalised (codes "<a href='b'>"))
unescape-escape_example = unescape-escape false (codes "<a href='b'>")

marks-create_interface_example :
    marks (create_interface (codes "org.'example") (property ∷ []) [] [] 0) ≡ codes "<''><''''''><>"
unfolding each
marks-create_interface_example =
    marks-create_interface (codes "org.'example") (property ∷ []) [] [] 0
