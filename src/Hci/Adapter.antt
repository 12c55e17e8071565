-- ===== src/Hci/Adapter.antt =====
-- src/HciAdapter.cpp: the adapter's commands, and the start and the end of its event thread. The
-- thread is modelled where it can stand when another thread runs: in the read of its loop.
pub mod Stopping
use bluetooth_le.Prelude.{
  ℕ, ◌+◌, Bool, true, false, not, List, [], ◌∷◌, Option, none, some, Text, take, if◌then◌else◌,
}
use bluetooth_le.Hci.System.{System}
use bluetooth_le.Hci.Socket.{HciSocket, is_connected, connect, disconnect, read, write_bytes}
use bluetooth_le.Hci.Packet.{
  Request, header_size, memory, request, name_field, flag, cmd_set_powered, cmd_set_le,
  cmd_set_advertising, cmd_set_local_name,
}

-- `reading` says that the event thread has been started and stands in its read.
pub record HciAdapter : Type 0 where
  pub socket : HciSocket
  pub is_running : Bool
  pub reading : Bool

-- The end of `stop`, once the thread has been joined: the socket is closed.
pub joined : Option (Bool × Text) × HciSocket → HciAdapter → Option HciAdapter
unfolding disconnect
joined (none, s) a = none
joined (some response, s) a = some (record a { socket = disconnect s; reading = false })

module _ (sys : System) where
  -- No result where the event thread runs already: a thread that can be joined is not replaced by
  -- another, the program ends.
  unfoldable pub initialize : HciAdapter → Option (Bool × HciAdapter)
  unfolding connect
  initialize a =
      let (ok, s) = connect sys a.socket in
      if not ok
      then some (false, record a { socket = s })
      else if a.reading
      then none
      else some (true, record { socket = s; is_running = true; reading = true })

  -- `stop`: it clears the flag that the loop tests and waits for the thread, which ends when its read
  -- has a result. No result while the read has none.
  unfoldable pub stop : ℕ → HciAdapter → Option HciAdapter
  unfolding joined read disconnect
  stop fuel a =
      let a' = record a { is_running = false } in
      if a.reading
      then joined (read sys fuel a.socket) a'
      else some (record a' { socket = disconnect a.socket })

  -- As many bytes from the header on as its `plen` says.
  unfoldable pub send_command : Request → HciSocket → Bool × HciSocket
  unfolding memory write_bytes
  send_command r = write_bytes sys (take (header_size + r.plen) (memory r))

  unfoldable pub set_adapter_name : Text → HciSocket → Bool × HciSocket
  unfolding request name_field send_command
  set_adapter_name name = send_command (request cmd_set_local_name (name_field 248 name))

  unfoldable pub set_advertising_enabled : Bool → HciSocket → Bool × HciSocket
  unfolding send_command
  set_advertising_enabled enabled =
      send_command
        (record { type = 0x01; opcode = cmd_set_advertising; plen = 1; body = flag enabled ∷ [] })

  unfoldable pub set_powered : Bool → HciSocket → Bool × HciSocket
  unfolding request send_command
  set_powered powered = send_command (request cmd_set_powered (flag powered ∷ []))

  unfoldable pub set_le_enabled : Bool → HciSocket → Bool × HciSocket
  unfolding request send_command
  set_le_enabled enabled = send_command (request cmd_set_le (flag enabled ∷ []))
