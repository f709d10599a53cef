-- ===== src/Session.antt =====
-- api/src/api/session.py: the parts of a session that keep state between messages.
pub mod Writes
pub mod Written
pub mod Retain
pub mod Retained
pub mod Translate
pub mod Runs
pub mod Cues
pub mod Gate
pub mod Attempts
pub mod Outbox
pub mod Frames
pub mod Delivered
pub mod Complete
pub mod Music
pub mod Songs
pub mod Lookups
pub mod Played
pub mod Unheard
pub mod Drain
pub mod Statuses
pub mod Drained
pub mod Dated
pub mod Surfaced
pub mod Apart
