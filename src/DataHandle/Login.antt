-- ===== src/DataHandle/Login.antt =====
-- What becomes of a login.
pub mod Accounts
pub mod Session
pub mod Reachable
