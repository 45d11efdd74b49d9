-- ===== src/GlobalRecovery.antt =====
-- cli/global_favorites_recovery.py: the ledger of uncertain operations, and its acknowledgements.
pub mod Objects
pub mod Records
pub mod Requests
pub mod Replies
pub mod Inspections
pub mod Results
pub mod Peer
pub mod Steps
pub mod Reading
pub mod Once
pub mod Restored
pub mod Confirmed
pub mod Evidence
mod Tests
