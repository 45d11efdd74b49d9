-- ===== src/GlobalItems.antt =====
-- cli/global_favorites_items.py: the pages of a list of global favorites, and playing one of them.
-- The reply to a request, which the transport delivers, is a parameter.
pub mod Page
pub mod Listing
pub mod Peer
mod Tests
