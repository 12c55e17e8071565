-- ===== src/Gatt/Tests.antt =====
-- Characteristics and descriptors at concrete inputs.
use bluetooth_le.Prelude.{
  ◌≡◌, ◌↔◌, refl, true, [], ◌∷◌, some, codes, false, none, Option, All, List,
}
use bluetooth_le.ObjectPath.{DBusObjectPath}
use bluetooth_le.Uuid.{GattUuid}
use bluetooth_le.Gio.{Variant, value, bytes, Environment}
use bluetooth_le.Gio.Sample.{bus}
use bluetooth_le.DBusTypes.{DBusMethodCall}
use bluetooth_le.Connection.{DBusConnection}
use bluetooth_le.Gatt.Records.{
  GattService, GattCharacteristic, GattDescriptor, gatt_characteristic_interface,
}
use bluetooth_le.Gatt.Create.{
  new_service, child_path, add_characteristic, create_characteristic, get_characteristic,
  new_characteristic, new_descriptor,
}
use bluetooth_le.Gatt.Setup.{setup_characteristic}
use bluetooth_le.Gatt.Create.RoundTrip.{create-get}
use bluetooth_le.Gatt.Flags.{characteristic_flags, managed_characteristic_flags}
use bluetooth_le.Gatt.Flags.Agreement.{authenticated, managed_characteristic_flags_iff}
use bluetooth_le.Gatt.Application.{GattApplication, register_with_blue_z, managed_objects}
use bluetooth_le.Gatt.Application.Links.{IsIn, links, managed_objects-links}
use bluetooth_le.Gatt.Application.Registry.{add, get, remove, served, spec_served, served_refines}
use bluetooth_le.Gatt.Application.Registering.{register-retry}

abbrev pub battery_uuid : GattUuid
battery_uuid = record { uuid = codes "00002a19-0000-1000-8000-00805f9b34fb" }

abbrev pub configuration_uuid : GattUuid
configuration_uuid = record { uuid = codes "00002902-0000-1000-8000-00805f9b34fb" }

abbrev pub service_path : DBusObjectPath
service_path = record { path = codes "/app/battery" }

abbrev pub char_path : DBusObjectPath
char_path = record { path = codes "/app/battery/char/1" }

-- It can be read, written and notified.
abbrev pub level : GattCharacteristic
level = new_characteristic char_path battery_uuid service_path 0x1a 0x03

abbrev pub configuration : GattDescriptor
configuration =
    new_descriptor (record { path = codes "/app/battery/char/1/desc/1" }) configuration_uuid
      char_path 0x03

abbrev pub idle : DBusConnection
idle = record { has_bus = true; registered_objects = []; signal_handlers = []; history = [] }

-- The bytes 1, 0.
abbrev pub sent : Variant
sent = value (bytes (1 ∷ 0 ∷ []))

abbrev pub request : DBusMethodCall
request = record {
  sender = codes ":1.5";
  interface = gatt_characteristic_interface;
  method = codes "WriteValue";
  parameters = some sent;
  invocation = some 7;
}

abbrev pub battery_service : GattService
battery_service = new_service service_path battery_uuid true

abbrev pub application : GattApplication
application = record {
  object = record {
    path = record { path = codes "/app" };
    registered = false;
    interfaces = [];
    method_handlers = [];
  };
  services = [];
  registered = false;
}

-- BlueZ answers no call.
abbrev no_blue_z : Environment
no_blue_z = record bus { reply = λ h e. none }

register-retry_example :
    let app1 = (register_with_blue_z no_blue_z application idle).1 in
    register_with_blue_z no_blue_z app1 idle ≡ (false, app1, idle)
unfolding register_with_blue_z
register-retry_example = register-retry no_blue_z application idle idle refl refl refl

managed_characteristic_flags_iff_example :
    (managed_characteristic_flags 0x02 0x10 ≡ characteristic_flags 0x02 0x10)
    ↔ (authenticated 0x10 ≡ false)
managed_characteristic_flags_iff_example = managed_characteristic_flags_iff 0x02 0x10

abbrev or_level : Option GattCharacteristic → GattCharacteristic
or_level none = level
or_level (some ch) = ch

abbrev made : GattCharacteristic
made = or_level (create_characteristic bus battery_uuid 0x12 0x01 battery_service idle).0

creates_made : (create_characteristic bus battery_uuid 0x12 0x01 battery_service idle).0 ≡ some made
unfolding create_characteristic add_characteristic new_service new_characteristic child_path
    setup_characteristic
creates_made = refl

create-get_example :
    let s1 = (create_characteristic bus battery_uuid 0x12 0x01 battery_service idle).1 in
    (get_characteristic battery_uuid s1 ≡ some made)
    × (create_characteristic bus battery_uuid 0x02 0x00 s1 idle ≡ (some made, s1, idle))
create-get_example =
    create-get bus battery_uuid 0x12 0x01 0x02 0x00 battery_service idle idle creates_made

abbrev services : List GattService
services = record battery_service { characteristics = (battery_uuid.uuid, some level) ∷ [] } ∷ []

managed_objects-links_example :
    All (IsIn (managed_objects services)) (links (managed_objects services))
managed_objects-links_example = managed_objects-links services

served_refines_example :
    served (add (some battery_service) ∷ get battery_uuid ∷ remove battery_uuid ∷ []) application
    ≡ spec_served
        (add (some battery_service) ∷ get battery_uuid ∷ remove battery_uuid ∷ [])
        (λ k. none)
served_refines_example =
    served_refines (add (some battery_service) ∷ get battery_uuid ∷ remove battery_uuid ∷ [])
      application refl
