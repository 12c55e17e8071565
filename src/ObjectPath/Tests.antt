-- ===== src/ObjectPath/Tests.antt =====
-- Paths at concrete inputs.
use bluetooth_le.Prelude.{◌≡◌, refl, ◌++◌, codes}
use bluetooth_le.Print.{c_str}
use bluetooth_le.ObjectPath.{DBusObjectPath, append_string}
use bluetooth_le.ObjectPath.Components.{components, components-append_string}

abbrev pub root : DBusObjectPath
root = record { path = codes "/app/" }

joined : (append_string root (codes "/service")).path ≡ codes "/app/service"
unfolding append_string
joined = refl

components-append_string_example :
    components (append_string root (codes "/service")).path
    ≡ components (codes "/app/") ++ components (c_str (codes "/service"))
components-append_string_example = components-append_string root (codes "/service")
