-- ===== src/Gatt/Create/Paths.antt =====
-- The paths of children.
use mathlib.Core.List.{append_cancel_left}
use bluetooth_le.Prelude.{ℕ, ◌+◌, ◌≡◌, sym, ap, ◌∙◌, List, [], ◌∷◌, ◌++◌, Text, arith}
use bluetooth_le.Print.{to_string, c_str}
use bluetooth_le.Print.CString.{c_str_of_Lacks}
use bluetooth_le.Print.Decimal.{to_string-injective, to_string-Lacks, to_string-ne-nil}
use bluetooth_le.ObjectPath.{DBusObjectPath, slash, append_string}
use bluetooth_le.ObjectPath.Components.{components, components-append_string, components-node}
use bluetooth_le.Gatt.Create.{child_path}

number_node : (n : ℕ) → components (c_str (to_string n)) ≡ to_string n ∷ []
number_node n =
    ap components (c_str_of_Lacks (to_string n) (to_string-Lacks 0 n (omega arith)))
    ∙ components-node (to_string n) (to_string-Lacks slash n (omega arith)) (to_string-ne-nil n)

-- The path of a child has the nodes of its parent's path, those of the label, and the number as a
-- node of its own.
pub components-child_path :
    (parent : DBusObjectPath) (label : Text) (n : ℕ)
    → components (child_path parent label n).path
      ≡ components parent.path ++ components (c_str label) ++ to_string (n + 1) ∷ []
unfolding child_path
components-child_path parent label n =
    components-append_string (append_string parent label) (to_string (n + 1))
    ∙ ap (λ u. u ++ components (c_str (to_string (n + 1)))) (components-append_string parent label)
    ∙ ap (◌++◌ (components parent.path ++ components (c_str label))) (number_node (n + 1))

abbrev first : List Text → Text
first [] = []
first (x ∷ xs) = x

-- Children that are numbered differently have different paths.
pub child_path-injective :
    (parent : DBusObjectPath) (label : Text) (m n : ℕ)
    → child_path parent label m ≡ child_path parent label n
    → m ≡ n
child_path-injective parent label m n e =
    let front = components parent.path ++ components (c_str label) in
    let same = append_cancel_left front _ _ (
      sym (components-child_path parent label m)
      ∙ ap (λ p. components p.path) e
      ∙ components-child_path parent label n) in
    let numbers = to_string-injective (m + 1) (n + 1) (ap first same) in ground (arith, numbers)
