-- ===== src/PlayerGroups.antt =====
-- cli/player_groups.py: named groups of players in the CLI configuration. The functions take the
-- `api` module and the client that they are passed as parameters.
pub mod Names
pub mod Targets
pub mod Devices
pub mod Management
pub mod Writes
mod Tests
