-- ===== src/DBusObject/Lookup.antt =====
-- Properties asked for in the process and over the bus give the same answers.
use bluetooth_le.Prelude.{◌≡◌, Bool, false, Option, none, Text, arith}
use bluetooth_le.Gio.{Value, Variant, returns}
use bluetooth_le.Connection.Dispatch.{
  HandlerData, Access, done, failed, handle_get_property, handle_set_property,
}
use bluetooth_le.DBusObject.{DBusObject, get_property, set_property}

-- What GIO is given when the object is registered.
abbrev pub handler_data : {G T F : Type 0} → DBusObject G T F → HandlerData G T F
handler_data o = record { method_handlers = o.method_handlers; properties = o.interfaces }

abbrev pub value_of : Access (Option Value) → Option Value
value_of (done v) = v
value_of (failed name message) = none

abbrev pub accepted : Access Bool → Bool
accepted (done b) = b
accepted (failed name message) = false

-- A read over the bus gives the value that `getProperty` gives, and an error or a null pointer where
-- that gives a null pointer, if the getters do not throw.
pub get-agrees :
    {S G T F : Type 0} (get : G → S → Option Value) (interface name : Text) (o : DBusObject G T F)
    (s : S)
    → value_of (handle_get_property (λ g t. returns (get g t)) (handler_data o) interface name s)
      ≡ get_property get interface name o s
unfolding handle_get_property get_property
get-agrees get interface name o s = ground arith

-- A write over the bus has the result and the effect of `setProperty`, if the setters do not throw.
pub set-agrees :
    {S G T F : Type 0} (put : T → Variant → S → Bool × S) (interface name : Text) (v : Variant)
    (o : DBusObject G T F) (s : S)
    → let (answer, s') =
        handle_set_property
          (λ f w t. (returns (put f w t).0, (put f w t).1))
          (handler_data o)
          interface
          name
          v
          s in
      ◌≡◌ {A = Bool × S} (accepted answer, s') (set_property put interface name v o s)
unfolding handle_set_property set_property
set-agrees put interface name v o s = ground arith
