-- ===== src/DeviceRegistry.antt =====
-- cli/device_registry.py: registration of devices by an administrator, with a checkpoint on disk
-- from which an interrupted operation is resumed.
pub mod Fields
pub mod Inventory
pub mod Alias
pub mod Request
pub mod World
pub mod Profile
pub mod Session
pub mod Prepare
pub mod Dispatch
mod Tests
