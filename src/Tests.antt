-- ===== src/Tests.antt =====
-- Runs of the models on concrete inputs, and each theorem with hypotheses at an input that meets them.
mod Agreement
mod Conversations
mod Streaming
mod Users
mod FairPool
mod Decoding
mod Meetings
mod Auth
mod Registry
mod Audio
mod Session
mod Translate
mod Cues
mod Outbox
mod Surfaced
mod Songs
mod Drain
