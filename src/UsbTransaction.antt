-- ===== src/UsbTransaction.antt =====
-- tools/android_usb_transaction.py: files that are staged in the shared ADB container.
pub mod World
pub mod Operations
pub mod Files
pub mod Rules
pub mod Cleanup
pub mod Returned
mod Tests
