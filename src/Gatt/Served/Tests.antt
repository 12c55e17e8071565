-- ===== src/Gatt/Served/Tests.antt =====
-- Calls from the bus at concrete inputs.
use bluetooth_le.Prelude.{refl, Option, ◌≡◌, ◌≢◌, none, some, Text, codes, ◌++◌}
use bluetooth_le.Uuid.{to_blue_z_format}
use bluetooth_le.Gatt.Flags.{characteristic_flags}
use bluetooth_le.Gatt.Served.Properties.{characteristic_get, characteristic_get-values}
use bluetooth_le.Gio.{
  Value, string, object_path, boolean, string_array, build, return_dbus_error, return_value,
  objects,
}
use bluetooth_le.Connection.{call}
use bluetooth_le.Connection.Dispatch.{
  Access, done, failed, error_unknown_method, error_unknown_property,
}
use bluetooth_le.DBusTypes.{DBusMethodCall}
use bluetooth_le.Gatt.Records.{GattCharacteristic, gatt_characteristic_interface}
use bluetooth_le.Gatt.Characteristic.{
  descriptor_paths, handle_read_value, handle_write_value, handle_start_notify, handle_stop_notify,
}
use bluetooth_le.Gatt.Application.{managed_objects}
use bluetooth_le.Connection.Dispatch.{handle_method_call}
use bluetooth_le.Connection.Delivery.{handle_method_call-answers}
use bluetooth_le.DBusObject.{new}
use bluetooth_le.Gio.Replies.{returned}
use bluetooth_le.Gatt.Setup.{setup_characteristic}
use bluetooth_le.Gatt.Served.Answered.{registered-HandsOver}
use bluetooth_le.Gatt.Served.{With, send_on, handlers_of, run_characteristic}
use bluetooth_le.Gatt.Served.Calls.{characteristic_call, characteristic_call-runs}
use bluetooth_le.Gatt.Served.Dispatching.{request}
use bluetooth_le.Gatt.Served.ManagedObjects.{application_call, application_call-managed_objects}
use bluetooth_le.Gio.Sample.{bus}
use bluetooth_le.Gatt.Tests.{char_path, level, idle, application, sent}

abbrev asked : Text → DBusMethodCall
asked method = request (codes ":1.5") gatt_characteristic_interface method none 7

abbrev received : Text → With GattCharacteristic
received method = characteristic_call bus char_path idle (codes ":1.5") method none 7 (level, idle)

characteristic_call-runs_example :
    (received (codes "ReadValue")
      ≡ (level, handle_read_value bus (asked (codes "ReadValue")) level idle))
    × (received (codes "WriteValue")
        ≡ handle_write_value bus (asked (codes "WriteValue")) level idle)
    × (received (codes "StartNotify")
        ≡ handle_start_notify bus (asked (codes "StartNotify")) level idle)
    × (received (codes "StopNotify")
        ≡ handle_stop_notify bus (asked (codes "StopNotify")) level idle)
    × ((method : Text)
        → codes "ReadValue" ≢ method
        → codes "StartNotify" ≢ method
        → codes "StopNotify" ≢ method
        → codes "WriteValue" ≢ method
        → received method ≡ (
          level,
          call
              (return_dbus_error 7 error_unknown_method
                (codes "Unknown method: " ++ gatt_characteristic_interface ++ codes "." ++ method))
              idle,
        ))
characteristic_call-runs_example =
    characteristic_call-runs bus char_path idle (codes ":1.5") none 7 level idle

application_call-managed_objects_example :
    application_call bus char_path idle
      (codes ":1.5")
      (codes "GetManagedObjects")
      none
      7
      (application, idle)
    ≡ (
      application,
      call (return_value 7 (some (objects (managed_objects application.services)))) idle,
    )
application_call-managed_objects_example =
    application_call-managed_objects bus char_path idle (codes ":1.5") none 7 application idle

abbrev read_name : Text → Access (Option Value)
read_name name = characteristic_get bus char_path idle name level

characteristic_get-values_example :
    (read_name (codes "UUID") ≡ done (build bus (string (to_blue_z_format level.uuid))))
    × (read_name (codes "Service") ≡ done (build bus (object_path level.service.path)))
    × (read_name (codes "Flags")
        ≡ done (build bus (string_array (characteristic_flags level.properties level.permissions))))
    × (read_name (codes "Descriptors")
        ≡ done (build bus (string_array (descriptor_paths level.descriptors))))
    × (read_name (codes "Notifying") ≡ done (build bus (boolean level.notifying)))
    × ((name : Text)
        → codes "UUID" ≢ name
        → codes "Service" ≢ name
        → codes "Flags" ≢ name
        → codes "Descriptors" ≢ name
        → codes "Notifying" ≢ name
        → read_name name
          ≡ failed error_unknown_property
              (codes "Unknown property: " ++ gatt_characteristic_interface ++ codes "." ++ name))
characteristic_get-values_example = characteristic_get-values bus char_path idle level

abbrev answered : Text → With GattCharacteristic
answered method =
    handle_method_call send_on (run_characteristic bus)
      (handlers_of (setup_characteristic bus (new char_path) idle).1) (codes ":1.5")
      gatt_characteristic_interface method (some sent) 7 (level, idle)

handle_method_call-answers_example : returned 7 (answered (codes "WriteValue")).1.history ≡ 1
handle_method_call-answers_example =
    handle_method_call-answers (λ s. s.1.history) send_on (run_characteristic bus) 7 (λ e s. refl)
      (handlers_of (setup_characteristic bus (new char_path) idle).1) (codes ":1.5")
      gatt_characteristic_interface (codes "WriteValue") (some sent) (level, idle)
      (registered-HandsOver bus char_path idle gatt_characteristic_interface (codes "WriteValue") _
        7 level idle refl)
