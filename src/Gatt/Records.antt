-- ===== src/Gatt/Records.antt =====
-- The state of include/GattDescriptor.h, GattCharacteristic.h and GattService.h, and the names of
-- include/BlueZConstants.h. A callback answers from the calls made so far and does not call back
-- into the object. The reference of a child to its parent is the parent's path, where only that is
-- read; where a descriptor changes its characteristic, the characteristic is an argument.
use bluetooth_le.Prelude.{ℕ, Bool, Option, Text, codes, Dict}
use bluetooth_le.ObjectPath.{DBusObjectPath}
use bluetooth_le.Uuid.{GattUuid}
use bluetooth_le.Gio.{History, Outcome}
use bluetooth_le.DBusObject.{DBusObject}

-- include/GattCallbacks.h
abbrev pub ReadCallback : Type 0
ReadCallback = History → Outcome Text

abbrev pub WriteCallback : Type 0
WriteCallback = Text → History → Outcome Bool

abbrev pub NotifyCallback : Type 0
NotifyCallback = History → Outcome (Unit {0})

-- The getters of the three kinds of objects. None of them has a setter.
pub data Getter : Type 0 where
  get_uuid get_service get_flags get_descriptors get_notifying : Getter
  get_characteristic get_permissions get_primary get_characteristics : Getter

pub data Setter : Type 0 where

pub data Method : Type 0 where
  read_value write_value start_notify stop_notify get_managed_objects : Method

abbrev pub Object : Type 0
Object = DBusObject Getter Setter Method

pub record GattDescriptor : Type 0 where
  pub object : Object
  pub uuid : GattUuid
  pub characteristic : DBusObjectPath
  pub permissions : ℕ
  pub value : Text
  pub read_callback : Option ReadCallback
  pub write_callback : Option WriteCallback

-- An entry `none` of a map is a null pointer.
pub record GattCharacteristic : Type 0 where
  pub object : Object
  pub uuid : GattUuid
  pub service : DBusObjectPath
  pub properties : ℕ
  pub permissions : ℕ
  pub value : Text
  pub notifying : Bool
  pub descriptors : Dict (Option GattDescriptor)
  pub read_callback : Option ReadCallback
  pub write_callback : Option WriteCallback
  pub notify_callback : Option NotifyCallback

pub record GattService : Type 0 where
  pub object : Object
  pub uuid : GattUuid
  pub primary : Bool
  pub characteristics : Dict (Option GattCharacteristic)

abbrev pub gatt_service_interface : Text
gatt_service_interface = codes "org.bluez.GattService1"

abbrev pub gatt_characteristic_interface : Text
gatt_characteristic_interface = codes "org.bluez.GattCharacteristic1"

abbrev pub gatt_descriptor_interface : Text
gatt_descriptor_interface = codes "org.bluez.GattDescriptor1"

abbrev pub object_manager_interface : Text
object_manager_interface = codes "org.freedesktop.DBus.ObjectManager"

abbrev pub gatt_manager_interface : Text
gatt_manager_interface = codes "org.bluez.GattManager1"
