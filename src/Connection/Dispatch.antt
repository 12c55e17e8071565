-- ===== src/Connection/Dispatch.antt =====
-- The handlers of incoming calls in src/DBusConnection.cpp: methods, properties and signals. What
-- GIO hands back as `userData` is `HandlerData`. A closure is run by a function that takes and
-- returns the program's state `S`; exceptions other than `std::exception` are not modelled.
use bluetooth_le.Prelude.{
  ℕ, Bool, not, List, [], ◌∷◌, ◌++◌, Option, none, some, Text, codes, text_eq, if◌then◌else◌, Dict,
  find,
}
use bluetooth_le.Gio.{
  Value, Variant, Event, Outcome, returns, throws, return_dbus_error, signal_handler,
}
use bluetooth_le.DBusTypes.{DBusProperty, DBusMethodCall}
use bluetooth_le.Connection.{DBusConnection, call}

-- include/DBusError.h: the names of the errors that the handlers use.
abbrev pub error_failed : Text
error_failed = codes "org.freedesktop.DBus.Error.Failed"

abbrev pub error_unknown_method : Text
error_unknown_method = codes "org.freedesktop.DBus.Error.UnknownMethod"

abbrev pub error_unknown_interface : Text
error_unknown_interface = codes "org.freedesktop.DBus.Error.UnknownInterface"

abbrev pub error_unknown_property : Text
error_unknown_property = codes "org.freedesktop.DBus.Error.UnknownProperty"

abbrev pub error_property_read_only : Text
error_property_read_only = codes "org.freedesktop.DBus.Error.PropertyReadOnly"

-- A handled property access: a value, or a null pointer with `GError` set to a name and a message.
-- A getter may also return a null pointer with no error.
pub data Access {ℓ} (A : Type ℓ) : Type ℓ where
  done : A → Access A
  failed : Text → Text → Access A

pub record HandlerData (G T F : Type 0) : Type 0 where
  pub method_handlers : Dict (Dict F)
  pub properties : Dict (List (DBusProperty G T))

-- "%s.%s"
abbrev pub dotted : Text → Text → Text
dotted interface name = interface ++ b'.' ∷ name

module _ {S F : Type 0} (send : Event → S → S)
    (run : F → DBusMethodCall → S → Outcome (Unit {0}) × S) where
  unfoldable pub run_handler : F → DBusMethodCall → ℕ → S → S
  run_handler f m invocation s =
      let (out, s') = run f m s in
      elim out [
        | returns _ ↦ s'
        | throws what ↦
            send (return_dbus_error invocation error_failed (codes "Internal error: " ++ what)) s'
      ]

  unfoldable pub find_method : Option (Dict F) → DBusMethodCall → ℕ → S → S
  unfolding run_handler find
  find_method none m invocation s =
      send
        (return_dbus_error invocation error_unknown_interface
          (codes "Unknown interface: " ++ m.interface))
        s
  find_method (some methods) m invocation s = elim (find m.method methods) [
    | none ↦
        send
          (return_dbus_error invocation error_unknown_method
            (codes "Unknown method: " ++ dotted m.interface m.method))
          s
    | some f ↦ run_handler f m invocation s
  ]

  unfoldable pub handle_method_call :
      {G T : Type 0} → HandlerData G T F → Text → Text → Text → Option Variant → ℕ → S → S
  unfolding find_method
  handle_method_call d sender interface method parameters invocation s =
      find_method (find interface d.method_handlers)
        (record {
          sender = sender;
          interface = interface;
          method = method;
          parameters = parameters;
          invocation = some invocation;
        })
        invocation s

-- The loop that looks for a property by its name.
unfoldable pub find_property :
    {G T : Type 0} → Text → List (DBusProperty G T) → Option (DBusProperty G T)
find_property name [] = none
find_property name (p ∷ ps) = if text_eq p.name name then some p else find_property name ps

module _ {S G T : Type 0} (get : G → S → Outcome (Option Value)) where
  unfoldable pub read_property : Text → Text → Option (DBusProperty G T) → S → Access (Option Value)
  read_property interface name none s =
      failed error_unknown_property (codes "Unknown property: " ++ dotted interface name)
  read_property interface name (some p) s =
      if not p.readable
      then failed error_property_read_only
          (codes "Property is not readable: " ++ dotted interface name)
      else elim p.getter [
        | none ↦ failed error_failed (codes "No getter for property: " ++ dotted interface name)
        | some g ↦ elim (get g s) [
          | returns v ↦ done v
          | throws what ↦ failed error_failed (codes "Error getting property: " ++ what)
        ]
      ]

  unfoldable pub handle_get_property :
      {F : Type 0} → HandlerData G T F → Text → Text → S → Access (Option Value)
  unfolding read_property find find_property
  handle_get_property d interface name s = elim (find interface d.properties) [
    | none ↦ failed error_unknown_interface (codes "Unknown interface: " ++ interface)
    | some ps ↦ read_property interface name (find_property name ps) s
  ]

module _ {S G T : Type 0} (put : T → Variant → S → Outcome Bool × S) where
  pub write_property : Text → Text → Option (DBusProperty G T) → Variant → S → Access Bool × S
  write_property interface name none v s =
      (failed error_unknown_property (codes "Unknown property: " ++ dotted interface name), s)
  write_property interface name (some p) v s =
      if not p.writable
      then (
        failed error_property_read_only
            (codes "Property is not writable: " ++ dotted interface name),
        s,
      )
      else elim p.setter [
        | none ↦
            (failed error_failed (codes "No setter for property: " ++ dotted interface name), s)
        | some f ↦
            (let (out, s') = put f v s in
              elim out [
                | returns r ↦ (done r, s')
                | throws what ↦ (failed error_failed (codes "Error setting property: " ++ what), s')
              ])
      ]

  unfoldable pub handle_set_property :
      {F : Type 0} → HandlerData G T F → Text → Text → Variant → S → Access Bool × S
  unfolding write_property find find_property
  handle_set_property d interface name v s = elim (find interface d.properties) [
    | none ↦ (failed error_unknown_interface (codes "Unknown interface: " ++ interface), s)
    | some ps ↦ write_property interface name (find_property name ps) v s
  ]

-- The loop of `handleSignal`, over all the handlers of the connection.
unfoldable pub deliver : List (ℕ × ℕ) → Text → Variant → DBusConnection → DBusConnection
deliver [] name v c = c
deliver ((id, handler) ∷ m) name v c = deliver m name v (call (signal_handler handler name v) c)

unfoldable pub handle_signal : Text → Variant → DBusConnection → DBusConnection
unfolding deliver
handle_signal name v c = deliver c.signal_handlers name v c
