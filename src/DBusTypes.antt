-- ===== src/DBusTypes.antt =====
-- include/DBusTypes.h: the structures of the D-Bus layer. A closure is named by a value of a type
-- that the owner of the object chooses (`G` for getters, `T` for setters), and its invocation by the
-- number of the pending call.
use bluetooth_le.Prelude.{ℕ, Bool, List, Option, Text}
use bluetooth_le.Gio.{Variant}

pub record DBusArgument : Type 0 where
  pub signature : Text
  pub name : Text
  pub direction : Text
  pub description : Text

pub record DBusProperty (G T : Type 0) : Type 0 where
  pub name : Text
  pub signature : Text
  pub readable : Bool
  pub writable : Bool
  pub emits_changed_signal : Bool
  pub getter : Option G
  pub setter : Option T

pub record DBusMethodCall : Type 0 where
  pub sender : Text
  pub interface : Text
  pub method : Text
  pub parameters : Option Variant
  pub invocation : Option ℕ

pub record DBusSignal : Type 0 where
  pub name : Text
  pub arguments : List DBusArgument
