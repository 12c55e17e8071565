-- ===== src/Gatt.antt =====
-- The GATT layer: services, characteristics, descriptors and the application that holds them.
pub mod Records
pub mod Flags
pub mod Setup
pub mod Characteristic
pub mod Descriptor
pub mod Create
pub mod Application
pub mod Served
pub mod Locks
pub mod Service
pub mod Tests
