-- ===== src/Registry.antt =====
-- api/src/api/registry.py: the locks under which a session is started.
pub mod Locks
pub mod Counts
pub mod Exclusive
pub mod Reachable
pub mod Sessions
