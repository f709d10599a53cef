-- ===== src/Audio.antt =====
-- api/src/api/persistence/audio.py: where the audio of a conversation is kept.
pub mod Stores
pub mod Scoped
pub mod Agree
