-- ===== src/PlaybackStatus.antt =====
-- cli/playback_status.py: what a player reports of its playback, and what of it is shown.
pub mod Labels
pub mod Playback
pub mod Live
mod Tests
