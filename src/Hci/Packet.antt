-- ===== src/Hci/Packet.antt =====
-- The memory of a command: `HciHeader` of include/HciAdapter.h and what the requests put behind it.
pub mod Names
use bluetooth_le.Prelude.{
  ℕ, ◌+◌, ◌-◌, ◌/◌, ◌%◌, ◌^◌, Bool, List, [], ◌∷◌, ◌++◌, Text, length, take, replicate,
  if◌then◌else◌,
}
use bluetooth_le.Print.{c_str}

-- A request: the fields of the header, in the host's order, and the bytes behind the header. The
-- fields have 8, 16 and 8 bits.
pub record Request : Type 0 where
  pub type : ℕ
  pub opcode : ℕ
  pub plen : ℕ
  pub body : Text

-- `sizeof(HciHeader)`, which is packed.
abbrev pub header_size : ℕ
header_size = 4

-- The memory of a request once `htole16` has been applied to the opcode.
unfoldable pub memory : Request → Text
memory r = r.type ∷ r.opcode % 256 ∷ r.opcode / 256 % 256 ∷ r.plen ∷ r.body

-- A request of type 1 whose `plen` is the size of its body, as far as that fits 8 bits.
unfoldable pub request : ℕ → Text → Request
request opcode body = record {
  type = 0x01;
  opcode = opcode;
  plen = length body % 2 ^ 8;
  body = body;
}

-- `char field[size]` after `memset` to 0 and `strncpy` of `size - 1` characters.
unfoldable pub name_field : ℕ → Text → Text
unfolding c_str
name_field size name =
    let copied = take (size - 1) (c_str name) in copied ++ replicate (size - length copied) 0

abbrev pub flag : Bool → ℕ
flag b = if b then 0x01 else 0x00

abbrev pub cmd_set_powered : ℕ
cmd_set_powered = 0x0c03

abbrev pub cmd_set_bredr : ℕ
cmd_set_bredr = 0x0c28

abbrev pub cmd_set_le : ℕ
cmd_set_le = 0x0c20

abbrev pub cmd_set_advertising : ℕ
cmd_set_advertising = 0x0c08

abbrev pub cmd_set_local_name : ℕ
cmd_set_local_name = 0x0c13

abbrev pub cmd_set_discoverable : ℕ
cmd_set_discoverable = 0x0c1e

abbrev pub cmd_set_secure_conn : ℕ
cmd_set_secure_conn = 0x0c41

abbrev pub cmd_set_bondable : ℕ
cmd_set_bondable = 0x0c45

abbrev pub cmd_set_connectable : ℕ
cmd_set_connectable = 0x0c26
