-- ===== src/LocalFavorites.antt =====
-- cli/favorites_document.py: the favorites of a player, by provider, profile and source.
pub mod Bounds
pub mod References
pub mod Scopes
pub mod Plan
pub mod Sorted
pub mod Valid
pub mod Selected
pub mod Merge
mod Tests
