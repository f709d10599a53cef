-- ===== src/Users.antt =====
-- api/src/api/auth/users.py: the accounts, and how an OIDC login finds its account.
pub mod Names
pub mod Model
pub mod Store
pub mod Resolve
pub mod Indexes
pub mod Invariant
pub mod Writes
pub mod Updates
pub mod Calls
pub mod Links
pub mod Logins
pub mod Devices
