-- ===== src/DBusMethod/Tests.antt =====
-- Methods at concrete inputs: one with a text and a number as its inputs, and a callback that answers.
use mathlib.Core.List.Memᴰ.{head, tail}
use bluetooth_le.Prelude.{suc, ◌≡◌, refl, true, List, [], ◌∷◌, none, some, Text, codes, arith}
use bluetooth_le.Print.{c_str}
use bluetooth_le.Gio.{object_only, return_value, return_dbus_error}
use bluetooth_le.Gio.Replies.{replies}
use bluetooth_le.DBusTypes.{DBusArgument, DBusMethodCall}
use bluetooth_le.DBusMethod.{Types, DBusMethod, Callback, get_input_arguments, invoke}
use bluetooth_le.DBusMethod.Invoking.{invoke_mixed, invoke_answers}

abbrev types : Types
types = record { accepts = λ t. true; type_of = λ v. codes "(o)" }

abbrev input : Text → DBusArgument
input t = record { signature = t; name = codes "x"; direction = codes "in"; description = [] }

abbrev answers : Callback
answers call h = (return_value 5 none ∷ h, none)

abbrev method : List DBusArgument → DBusMethod
method args = record { owner = 1; name = codes "Set"; arguments = args; callback = answers }

abbrev request : DBusMethodCall
request = record {
  sender = codes ":1.5";
  interface = codes "org.example";
  method = codes "Set";
  parameters = some (object_only (codes "/a"));
  invocation = some 5;
}

invoke_mixed_example :
    invoke types request (method (input (codes "s") ∷ input (codes "i") ∷ [])) []
    ≡ return_dbus_error 5
        (codes "org.freedesktop.DBus.Error.InvalidArgs")
        (codes "Method arguments do not match signature")
      ∷ []
unfolding get_input_arguments c_str
invoke_mixed_example =
    invoke_mixed types (method (input (codes "s") ∷ input (codes "i") ∷ [])) (input (codes "s"))
      (input (codes "i")) request (object_only (codes "/a")) 5 [] (head refl) (tail (head refl))
      (λ e. ground (arith, e)) refl refl

invoke_answers_example :
    replies 5 (invoke types request (method (input (codes "(o)") ∷ [])) []) ≡ suc (replies 5 [])
invoke_answers_example =
    invoke_answers types (method (input (codes "(o)") ∷ [])) request 5 [] refl (λ h. refl)
