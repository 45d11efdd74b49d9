-- ===== src/FavoritesTransfer.antt =====
-- cli/favorites_transfer.py: documents as bytes, in chunks with a size and a digest.
pub mod Strict
pub mod Encoding
pub mod Pack
pub mod Envelopes
mod Tests
