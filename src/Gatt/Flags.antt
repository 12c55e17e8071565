-- ===== src/Gatt/Flags.antt =====
-- The bits of properties and permissions (include/GattTypes.h) and the lists of flags made of them:
-- by the getters of src/GattCharacteristic.cpp and src/GattDescriptor.cpp, and by
-- `createManagedObjectsDict` of src/GattApplication.cpp.
pub mod Agreement
use Prim.Native.Nat.{bit_and}
use bluetooth_le.Prelude.{ℕ, Bool, not, List, [], ◌∷◌, ◌++◌, Text, codes, ◌==◌, if◌then◌else◌}

-- `flags & mask`, as a condition.
abbrev pub has : ℕ → ℕ → Bool
has flags mask = not (bit_and flags mask == 0)

abbrev pub prop_broadcast : ℕ
prop_broadcast = 0x01

abbrev pub prop_read : ℕ
prop_read = 0x02

abbrev pub prop_write_without_response : ℕ
prop_write_without_response = 0x04

abbrev pub prop_write : ℕ
prop_write = 0x08

abbrev pub prop_notify : ℕ
prop_notify = 0x10

abbrev pub prop_indicate : ℕ
prop_indicate = 0x20

abbrev pub prop_authenticated_signed_writes : ℕ
prop_authenticated_signed_writes = 0x40

abbrev pub perm_read : ℕ
perm_read = 0x01

abbrev pub perm_write : ℕ
perm_write = 0x02

abbrev pub perm_read_encrypted : ℕ
perm_read_encrypted = 0x04

abbrev pub perm_write_encrypted : ℕ
perm_write_encrypted = 0x08

abbrev pub perm_read_authenticated : ℕ
perm_read_authenticated = 0x10

abbrev pub perm_write_authenticated : ℕ
perm_write_authenticated = 0x20

-- `if (test) flags.push_back(name)`
abbrev pub push_if : Bool → Text → List Text → List Text
push_if test name flags = if test then flags ++ name ∷ [] else flags

-- The flags of the seven properties that are pushed first.
pub property_flags : ℕ → List Text
property_flags p =
    let f1 = push_if (has p prop_broadcast) (codes "broadcast") [] in
    let f2 = push_if (has p prop_read) (codes "read") f1 in
    let f3 = push_if (has p prop_write_without_response) (codes "write-without-response") f2 in
    let f4 = push_if (has p prop_write) (codes "write") f3 in
    let f5 = push_if (has p prop_notify) (codes "notify") f4 in
    let f6 = push_if (has p prop_indicate) (codes "indicate") f5 in
    push_if (has p prop_authenticated_signed_writes) (codes "authenticated-signed-writes") f6

-- `GattCharacteristic::getPropertiesProperty`
unfoldable pub characteristic_flags : ℕ → ℕ → List Text
unfolding property_flags
characteristic_flags p perms =
    let f8 = push_if (has perms perm_read_encrypted) (codes "encrypt-read") (property_flags p) in
    push_if (has perms perm_write_encrypted) (codes "encrypt-write") f8

-- The flags of a characteristic in `createManagedObjectsDict`.
unfoldable pub managed_characteristic_flags : ℕ → ℕ → List Text
unfolding property_flags
managed_characteristic_flags p perms =
    let f8 = push_if (has perms perm_read_encrypted) (codes "encrypt-read") (property_flags p) in
    let f9 = push_if (has perms perm_write_encrypted) (codes "encrypt-write") f8 in
    let f10 = push_if (has perms perm_read_authenticated) (codes "auth-read") f9 in
    push_if (has perms perm_write_authenticated) (codes "auth-write") f10

-- The flags of a descriptor in `createManagedObjectsDict`.
unfoldable pub managed_descriptor_flags : ℕ → List Text
managed_descriptor_flags perms =
    let f1 = push_if (has perms perm_read) (codes "read") [] in
    let f2 = push_if (has perms perm_write) (codes "write") f1 in
    let f3 = push_if (has perms perm_read_encrypted) (codes "encrypt-read") f2 in
    let f4 = push_if (has perms perm_write_encrypted) (codes "encrypt-write") f3 in
    let f5 = push_if (has perms perm_read_authenticated) (codes "auth-read") f4 in
    push_if (has perms perm_write_authenticated) (codes "auth-write") f5

pub or_default : List Text → List Text
or_default [] = codes "read" ∷ []
or_default (f ∷ flags) = f ∷ flags

-- `GattDescriptor::getPermissionsProperty`, which makes the list in the same way and does not leave
-- it empty.
unfoldable pub descriptor_flags : ℕ → List Text
unfolding or_default
descriptor_flags perms =
    let f1 = push_if (has perms perm_read) (codes "read") [] in
    let f2 = push_if (has perms perm_write) (codes "write") f1 in
    let f3 = push_if (has perms perm_read_encrypted) (codes "encrypt-read") f2 in
    let f4 = push_if (has perms perm_write_encrypted) (codes "encrypt-write") f3 in
    let f5 = push_if (has perms perm_read_authenticated) (codes "auth-read") f4 in
    or_default (push_if (has perms perm_write_authenticated) (codes "auth-write") f5)
