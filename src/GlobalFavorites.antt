-- ===== src/GlobalFavorites.antt =====
-- cli/global_favorites_document.py: portable global favorites and deterministic merge previews.
pub mod Fields
pub mod Entry
pub mod Document
pub mod Plan
pub mod Kinds
pub mod Supports
pub mod Scan
pub mod Nesting
mod Tests
