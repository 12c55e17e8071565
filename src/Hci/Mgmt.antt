-- ===== src/Hci/Mgmt.antt =====
-- src/Mgmt.cpp: the management commands. The controller's index goes into no command.
pub mod Names
use bluetooth_le.Prelude.{
  ℕ, ◌/◌, ◌%◌, Bool, List, [], ◌∷◌, ◌++◌, Text, length, take, leb, if◌then◌else◌,
}
use bluetooth_le.Hci.System.{System}
use bluetooth_le.Hci.Socket.{HciSocket, write_bytes}
use bluetooth_le.Hci.Packet.{
  request, name_field, flag, cmd_set_bredr, cmd_set_le, cmd_set_advertising, cmd_set_local_name,
  cmd_set_discoverable, cmd_set_secure_conn, cmd_set_bondable, cmd_set_connectable,
}
use bluetooth_le.Hci.Adapter.{send_command}

abbrev pub max_advertising_name_length : ℕ
max_advertising_name_length = 248

abbrev pub max_advertising_short_name_length : ℕ
max_advertising_short_name_length = 10

unfoldable pub truncate_name : Text → Text
truncate_name name =
    if leb (length name) max_advertising_name_length
    then name
    else take max_advertising_name_length name

unfoldable pub truncate_short_name : Text → Text
truncate_short_name name =
    if leb (length name) max_advertising_short_name_length
    then name
    else take max_advertising_short_name_length name

module _ (sys : System) where
  unfoldable pub set_name : Text → Text → HciSocket → Bool × HciSocket
  unfolding truncate_name truncate_short_name request name_field send_command
  set_name name short_name = send_command sys (
      request cmd_set_local_name
        (name_field 249 (truncate_name name) ++ name_field 11 (truncate_short_name short_name)))

  -- The time is stored in the order of the host, which is little-endian here.
  unfoldable pub set_discoverable : ℕ → ℕ → HciSocket → Bool × HciSocket
  unfolding request send_command
  set_discoverable disc timeout =
      send_command sys
        (request cmd_set_discoverable (disc ∷ timeout % 256 ∷ timeout / 256 % 256 ∷ []))

  unfoldable pub set_state : ℕ → ℕ → HciSocket → Bool × HciSocket
  unfolding request send_command
  set_state command_code new_state = send_command sys (request command_code (new_state ∷ []))

  -- The bytes are put together here and written past `sendCommand`.
  unfoldable pub set_powered : Bool → HciSocket → Bool × HciSocket
  unfolding write_bytes
  set_powered new_state =
      write_bytes sys (0x01 ∷ 0x0c03 % 256 ∷ 0x0c03 / 256 % 256 ∷ 1 ∷ flag new_state ∷ [])

  unfoldable pub set_bredr : Bool → HciSocket → Bool × HciSocket
  unfolding set_state
  set_bredr new_state = set_state cmd_set_bredr (flag new_state)

  unfoldable pub set_secure_connections : ℕ → HciSocket → Bool × HciSocket
  unfolding set_state
  set_secure_connections new_state = set_state cmd_set_secure_conn new_state

  unfoldable pub set_bondable : Bool → HciSocket → Bool × HciSocket
  unfolding set_state
  set_bondable new_state = set_state cmd_set_bondable (flag new_state)

  unfoldable pub set_connectable : Bool → HciSocket → Bool × HciSocket
  unfolding set_state
  set_connectable new_state = set_state cmd_set_connectable (flag new_state)

  unfoldable pub set_le : Bool → HciSocket → Bool × HciSocket
  unfolding set_state
  set_le new_state = set_state cmd_set_le (flag new_state)

  unfoldable pub set_advertising : ℕ → HciSocket → Bool × HciSocket
  unfolding set_state
  set_advertising new_state = set_state cmd_set_advertising new_state
