-- ===== src/DBusObject.antt =====
-- include/DBusObject.h and src/DBusObject.cpp: an object at a path, with its interfaces, properties
-- and method handlers. `G`, `T` and `F` name the closures of getters, setters and methods.
pub mod Lookup
pub mod Frozen
pub mod Methods
pub mod Tests
use bluetooth_le.Prelude.{
  ℕ, ◌+◌, Bool, true, false, not, List, [], ◌∷◌, ◌++◌, map, Option, none, some, Text, codes,
  text_eq, if◌then◌else◌, Dict, find, insert,
}
use bluetooth_le.ObjectPath.{DBusObjectPath}
use bluetooth_le.Gio.{Value, Variant, Environment}
use bluetooth_le.DBusTypes.{DBusProperty, DBusMethodCall}
use bluetooth_le.Xml.{create_interface, each}
use bluetooth_le.Connection.{DBusConnection}
use bluetooth_le.Connection
use bluetooth_le.Connection.Dispatch.{find_property}

pub record DBusObject (G T F : Type 0) : Type 0 where
  pub path : DBusObjectPath
  pub registered : Bool
  pub interfaces : Dict (List (DBusProperty G T))
  pub method_handlers : Dict (Dict F)

module _ {G T F : Type 0} where
  unfoldable pub new : DBusObjectPath → DBusObject G T F
  new path = record { path = path; registered = false; interfaces = []; method_handlers = [] }

module _ {G T F : Type 0} where
  unfoldable pub add_interface :
      Text → List (DBusProperty G T) → DBusObject G T F → Bool × DBusObject G T F
  unfolding insert
  add_interface interface properties o =
      if o.registered
      then (false, o)
      else (true, record o { interfaces = insert interface properties o.interfaces })

-- `map[key]` where it is read: an absent key gives an empty map.
unfoldable pub entry {ℓ} : {V : Type ℓ} → Option (Dict V) → Dict V
entry none = []
entry (some m) = m

module _ {G T : Type 0} where
  -- An interface that is not there is made, with no property.
  unfoldable pub ensure :
      Text
      → Option (List (DBusProperty G T))
      → Dict (List (DBusProperty G T))
      → Dict (List (DBusProperty G T))
  ensure interface none m = insert interface [] m
  ensure interface (some ps) m = m

module _ {G T F : Type 0} where
  unfoldable pub add_method : Text → Text → F → DBusObject G T F → Bool × DBusObject G T F
  unfolding insert find entry ensure
  add_method interface method handler o = if o.registered then (false, o) else (
    true,
    record o {
      interfaces = ensure interface (find interface o.interfaces) o.interfaces;
      method_handlers =
          insert interface (insert method handler (entry (find interface o.method_handlers)))
            o.method_handlers;
    },
  )

module _ {G T : Type 0} where
  pub read : {S : Type 0} → (G → S → Option Value) → Option (DBusProperty G T) → S → Option Value
  read get none s = none
  read get (some p) s =
      if not p.readable then none else elim p.getter [ none ↦ none | some g ↦ get g s ]

module _ {G T F : Type 0} where
  -- A getter that returns a null pointer gives `none`.
  unfoldable pub get_property :
      {S : Type 0} → (G → S → Option Value) → Text → Text → DBusObject G T F → S → Option Value
  unfolding read find find_property
  get_property get interface name o s = elim (find interface o.interfaces) [
    | none ↦ none
    | some ps ↦ read get (find_property name ps) s
  ]

module _ {G T : Type 0} where
  pub write :
      {S : Type 0}
      → (T → Variant → S → Bool × S)
      → Option (DBusProperty G T)
      → Variant
      → S
      → Bool × S
  write put none v s = (false, s)
  write put (some p) v s =
      if not p.writable
      then (false, s)
      else elim p.setter [ none ↦ (false, s) | some f ↦ put f v s ]

module _ {G T F : Type 0} where
  unfoldable pub set_property :
      {S : Type 0}
      → (T → Variant → S → Bool × S)
      → Text
      → Text
      → Variant
      → DBusObject G T F
      → S
      → Bool × S
  unfolding write find find_property
  set_property put interface name v o s = elim (find interface o.interfaces) [
    | none ↦ (false, s)
    | some ps ↦ write put (find_property name ps) v s
  ]

module _ {F : Type 0} where
  -- A method of the XML: only its names are given.
  pub listed_method : Text → Text × F → DBusMethodCall
  listed_method interface (method, f) = record {
    sender = [];
    interface = interface;
    method = method;
    parameters = none;
    invocation = none;
  }

module _ {G T F : Type 0} where
  pub interface_xml : Dict (Dict F) → Text × List (DBusProperty G T) → Text
  unfolding create_interface find entry listed_method
  interface_xml handlers (interface, properties) =
      create_interface interface properties
        (map (listed_method interface) (entry (find interface handlers))) [] 1

module _ {G T F : Type 0} where
  unfoldable pub generate_introspection_xml : DBusObject G T F → Text
  unfolding interface_xml each
  generate_introspection_xml o =
      codes "<?xml version=\"1.0\" encoding=\"UTF-8\"?>\n<node>\n"
      ++ each (interface_xml o.method_handlers) o.interfaces
      ++ codes "</node>"

module _ {G T F : Type 0} (env : Environment) where
  unfoldable pub emit_property_changed :
      Text → Text → Value → DBusObject G T F → DBusConnection → Bool × DBusConnection
  unfolding Connection.emit_property_changed
  emit_property_changed interface name v o c =
      if o.registered
      then Connection.emit_property_changed env o.path interface name v c
      else (false, c)

  unfoldable pub emit_signal :
      Text → Text → Option Variant → DBusObject G T F → DBusConnection → Bool × DBusConnection
  unfolding Connection.send_signal
  emit_signal interface name parameters o c =
      if o.registered
      then Connection.send_signal env o.path interface name parameters c
      else (false, c)

  unfoldable pub register_object :
      DBusObject G T F → DBusConnection → Bool × DBusObject G T F × DBusConnection
  unfolding Connection.is_connected Connection.register_object generate_introspection_xml
  register_object o c =
      if o.registered
      then (true, o, c)
      else (let (connected, c1) = Connection.is_connected env c in
          let (ok, c2) = Connection.register_object env o.path (generate_introspection_xml o) c1 in
          if connected then (ok, record o { registered = ok }, c2) else (false, o, c1))

  unfoldable pub unregister_object :
      DBusObject G T F → DBusConnection → Bool × DBusObject G T F × DBusConnection
  unfolding Connection.unregister_path
  unregister_object o c =
      if o.registered
      then (let (ok, c1) = Connection.unregister_path env o.path c in
          (ok, record o { registered = not ok }, c1))
      else (true, o, c)
