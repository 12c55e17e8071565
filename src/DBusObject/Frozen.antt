-- ===== src/DBusObject/Frozen.antt =====
-- A registered object: GIO holds copies of its tables, so they must not change.
use bluetooth_le.Prelude.{◌≡◌, refl, ap, ◌∙◌, true, List, Text, arith}
use bluetooth_le.Gio.{Environment}
use bluetooth_le.DBusTypes.{DBusProperty}
use bluetooth_le.Connection.{DBusConnection}
use bluetooth_le.DBusObject.{
  DBusObject, add_interface, add_method, register_object, unregister_object,
}
use bluetooth_le.DBusObject.Lookup.{handler_data}

-- What can happen to an object, with the connection in any state.
pub data Step {G T F : Type 0} (env : Environment) (o o' : DBusObject G T F) : Type 0 where
  interface_added :
      (interface : Text) (properties : List (DBusProperty G T))
      → o' ≡ (add_interface interface properties o).1
      → Step env o o'
  method_added :
      (interface method : Text) (f : F) → o' ≡ (add_method interface method f o).1 → Step env o o'
  object_registered : (c : DBusConnection) → o' ≡ (register_object env o c).1 → Step env o o'
  object_unregistered : (c : DBusConnection) → o' ≡ (unregister_object env o c).1 → Step env o o'

-- Steps through objects that are registered, up to the last one.
pub data Run {G T F : Type 0} (env : Environment) (o : DBusObject G T F)
    : DBusObject G T F → Type 0 where
  here : Run env o o
  next :
      {o1 o2 : DBusObject G T F}
      → Run env o o1
      → o1.registered ≡ true
      → Step env o1 o2
      → Run env o o2

module _ {G T F : Type 0} (env : Environment) (o : DBusObject G T F) (r : o.registered ≡ true) where
  added-keeps :
      (interface : Text) (properties : List (DBusProperty G T))
      → handler_data (add_interface interface properties o).1 ≡ handler_data o
  unfolding add_interface
  added-keeps interface properties = ground (arith, r)

  method-keeps :
      (interface method : Text) (f : F)
      → handler_data (add_method interface method f o).1 ≡ handler_data o
  unfolding add_method
  method-keeps interface method f = ground (arith, r)

  registered-keeps :
      (c : DBusConnection) → handler_data (register_object env o c).1 ≡ handler_data o
  unfolding register_object
  registered-keeps c = ground (arith, r)

  unregistered-keeps :
      (c : DBusConnection) → handler_data (unregister_object env o c).1 ≡ handler_data o
  unfolding unregister_object
  unregistered-keeps c = ground (arith, r)

  Step-keeps : (o' : DBusObject G T F) → Step env o o' → handler_data o' ≡ handler_data o
  Step-keeps o' (interface_added interface properties e) =
      ap handler_data e ∙ added-keeps interface properties
  Step-keeps o' (method_added interface method f e) =
      ap handler_data e ∙ method-keeps interface method f
  Step-keeps o' (object_registered c e) = ap handler_data e ∙ registered-keeps c
  Step-keeps o' (object_unregistered c e) = ap handler_data e ∙ unregistered-keeps c

-- The tables of an object, which GIO was given copies of when the object was registered, stay what
-- they were through all operations on the object while it is registered, and still are when the last
-- of them takes it off the bus.
pub Run-keeps :
    {G T F : Type 0} {env : Environment} {o o' : DBusObject G T F}
    → Run env o o'
    → handler_data o' ≡ handler_data o
Run-keeps here = refl
Run-keeps {env = env} (next {o1} {o2} run r s) = Step-keeps env o1 r o2 s ∙ Run-keeps run
