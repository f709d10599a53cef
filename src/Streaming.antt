-- ===== src/Streaming.antt =====
-- api/src/api/stt/streaming.py: the realtime transcriber, which cuts the audio of a session into turns.
pub mod Cut
pub mod Ingest
pub mod Audio
pub mod Timeline
pub mod Bounds
pub mod Buffer
pub mod Worker
pub mod Pending
pub mod Accounts
pub mod Backlog
pub mod Heard
pub mod Engine
pub mod Retries
pub mod Finalize
pub mod Shown
pub mod Quiet
