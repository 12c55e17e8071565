-- ===== src/Hci.antt =====
-- The HCI layer: the socket, the adapter that frames commands and reads events, and the management
-- commands.
pub mod System
pub mod Socket
pub mod Packet
pub mod Adapter
pub mod Events
pub mod Mgmt
pub mod Framing
pub mod Commands
pub mod Tests
