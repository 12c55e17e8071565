-- ===== src/Hci/Commands.antt =====
-- The commands of src/HciAdapter.cpp and src/Mgmt.cpp and the packets that they stand for.
use bluetooth_le.Prelude.{
  ℕ, ◌+◌, ◌*◌, ◌-◌, ◌/◌, ◌%◌, ◌<◌, refl, subst, Bool, [], ◌∷◌, ◌++◌, Text, length, take, replicate,
  if◌then◌else◌, arith,
}
use bluetooth_le.Print.{c_str}
use bluetooth_le.Hci.System.{System}
use bluetooth_le.Hci.Socket.{HciSocket}
use bluetooth_le.Hci.Packet.{request, name_field, flag}
use bluetooth_le.Hci.Packet.Names.{length-name_field}
use bluetooth_le.Hci.Adapter.{
  send_command, set_adapter_name, set_advertising_enabled, set_le_enabled,
}
use bluetooth_le.Hci.Adapter
use bluetooth_le.Hci.Mgmt.{
  set_discoverable, set_bredr, set_secure_connections, set_bondable, set_connectable, set_le,
  set_advertising, set_state,
}
use bluetooth_le.Hci.Mgmt
use bluetooth_le.Hci.Framing.{parse, Sends, writes_once, framed, framed_request}

-- The operations that send a command, those of the adapter first, without `Mgmt::setName`, whose packet
-- is cut (Hci/Mgmt/Names).
pub data Command : Type 0 where
  adapter_name : Text → Command
  advertising_enabled powered le_enabled : Bool → Command
  discoverable : ℕ → ℕ → Command
  controller_powered bredr bondable connectable le : Bool → Command
  secure_connections advertising : ℕ → Command

unfoldable pub run : System → Command → HciSocket → Bool × HciSocket
unfolding set_adapter_name set_advertising_enabled Adapter.set_powered set_le_enabled
    set_discoverable Mgmt.set_powered set_bredr set_bondable set_connectable set_le
    set_secure_connections set_advertising
run sys (adapter_name name) = set_adapter_name sys name
run sys (advertising_enabled b) = set_advertising_enabled sys b
run sys (powered b) = Adapter.set_powered sys b
run sys (le_enabled b) = set_le_enabled sys b
run sys (discoverable disc timeout) = set_discoverable sys disc timeout
run sys (controller_powered b) = Mgmt.set_powered sys b
run sys (bredr b) = set_bredr sys b
run sys (bondable b) = set_bondable sys b
run sys (connectable b) = set_connectable sys b
run sys (le b) = set_le sys b
run sys (secure_connections v) = set_secure_connections sys v
run sys (advertising v) = set_advertising sys v

-- A time fits 16 bits.
unfoldable pub IsInRange : Command → Type 0
IsInRange (discoverable disc timeout) = timeout < 65536
IsInRange _ = Unit

-- An opcode by its group and its number in the group. The comments of include/HciAdapter.h give both for
-- each command.
abbrev hci_opcode : ℕ → ℕ → ℕ
hci_opcode ogf ocf = ogf * 1024 + ocf

-- What each operation is to ask of the controller.
unfoldable pub meaning : Command → ℕ × Text
meaning (adapter_name name) =
    let shown = take 247 (c_str name) in
    (hci_opcode 0x03 0x13, shown ++ replicate (248 - length shown) 0)
meaning (advertising_enabled b) = (hci_opcode 0x03 0x08, (if b then 1 else 0) ∷ [])
meaning (powered b) = (hci_opcode 0x03 0x03, (if b then 1 else 0) ∷ [])
meaning (le_enabled b) = (hci_opcode 0x03 0x20, (if b then 1 else 0) ∷ [])
meaning (discoverable disc timeout) =
    (hci_opcode 0x03 0x1e, disc ∷ timeout % 256 ∷ timeout / 256 ∷ [])
meaning (controller_powered b) = (hci_opcode 0x03 0x03, (if b then 1 else 0) ∷ [])
meaning (bredr b) = (hci_opcode 0x03 0x28, (if b then 1 else 0) ∷ [])
meaning (bondable b) = (hci_opcode 0x03 0x45, (if b then 1 else 0) ∷ [])
meaning (connectable b) = (hci_opcode 0x03 0x26, (if b then 1 else 0) ∷ [])
meaning (le b) = (hci_opcode 0x03 0x20, (if b then 1 else 0) ∷ [])
meaning (secure_connections v) = (hci_opcode 0x03 0x41, v ∷ [])
meaning (advertising v) = (hci_opcode 0x03 0x08, v ∷ [])

-- A request with one byte of parameters.
framed_byte :
    (sys : System) (opcode v : ℕ) (s : HciSocket)
    → opcode < 65536
    → Sends sys (opcode, v ∷ []) s (send_command sys (request opcode (v ∷ [])) s)
framed_byte sys opcode v s h = framed_request sys opcode (v ∷ []) s h (omega arith)

framed_time :
    (sys : System) (disc timeout : ℕ) (s : HciSocket)
    → timeout < 65536
    → Sends sys (meaning (discoverable disc timeout)) s (set_discoverable sys disc timeout s)
unfolding meaning set_discoverable
framed_time sys disc timeout s h =
    subst
      (λ high.
        Sends sys (0x0c1e, disc ∷ timeout % 256 ∷ high ∷ []) s
          (set_discoverable sys disc timeout s))
      (omega (arith, h))
      (framed_request sys 0x0c1e (disc ∷ timeout % 256 ∷ timeout / 256 % 256 ∷ []) s (omega arith)
        (omega arith))

-- The packet that is put together and written past `sendCommand`.
framed_power :
    (sys : System) (b : Bool) (s : HciSocket)
    → Sends sys (meaning (controller_powered b)) s (Mgmt.set_powered sys b s)
unfolding meaning Mgmt.set_powered parse
framed_power sys b s =
    (let bytes : Text = 1 ∷ 3 ∷ 12 ∷ 1 ∷ flag b ∷ [] in (bytes, writes_once sys bytes s, refl))

-- Every operation of the adapter and of the management part that sends a command, but for
-- `Mgmt::setName`, given a time below 2 ^ 16 where it takes one, writes to the socket once. A reader of
-- HCI command packets gets from the bytes the opcode of the group and the number that
-- include/HciAdapter.h names for the operation, and the operation's arguments as the parameters, the
-- whole packet being used up. The operation answers true exactly if the system took all the bytes.
pub run-parse :
    (sys : System) (c : Command) (s : HciSocket)
    → IsInRange c
    → Sends sys (meaning c) s (run sys c s)
unfolding run meaning IsInRange
run-parse sys (adapter_name name) s h =
    framed_request sys 0x0c13 (name_field 248 name) s (omega arith)
      (omega (arith, length-name_field 248 name (omega arith)))
run-parse sys (advertising_enabled b) s h =
    framed sys (record { type = 1; opcode = 0x0c08; plen = 1; body = flag b ∷ [] }) s refl
      (omega arith) refl
run-parse sys (powered b) s h = framed_byte sys 0x0c03 (flag b) s (omega arith)
run-parse sys (le_enabled b) s h = framed_byte sys 0x0c20 (flag b) s (omega arith)
run-parse sys (discoverable disc timeout) s h = framed_time sys disc timeout s h
run-parse sys (controller_powered b) s h = framed_power sys b s
run-parse sys (bredr b) s h = framed_byte sys 0x0c28 (flag b) s (omega arith)
run-parse sys (bondable b) s h = framed_byte sys 0x0c45 (flag b) s (omega arith)
run-parse sys (connectable b) s h = framed_byte sys 0x0c26 (flag b) s (omega arith)
run-parse sys (le b) s h = framed_byte sys 0x0c20 (flag b) s (omega arith)
run-parse sys (secure_connections v) s h = framed_byte sys 0x0c41 v s (omega arith)
run-parse sys (advertising v) s h = framed_byte sys 0x0c08 v s (omega arith)
