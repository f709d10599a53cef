-- ===== src/Auth.antt =====
-- api/src/api/auth/tokens.py: the bearer tokens of the built-in login.
pub mod Tokens
pub mod Issued
pub mod Accepted
pub mod Renewed
pub mod Passwords
