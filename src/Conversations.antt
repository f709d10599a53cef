-- ===== src/Conversations.antt =====
-- api/src/api/persistence: the conversation records (models.py) and the in-memory conversation store
-- (conversations.py), which the live sessions write and the history API reads.
pub mod Model
pub mod Store
pub mod Sweep
pub mod Rows
pub mod Ops
pub mod Refine
pub mod Lifecycle
pub mod Sessions
pub mod Invariant
pub mod Keys
pub mod Swept
pub mod Private
pub mod Orgs
