-- ===== src/Db.antt =====
-- src/db: the storage layer.
pub mod Rows
pub mod Exec
pub mod Links
pub mod Clicks
pub mod Tokens
pub mod Secrets
pub mod Scheduler
pub mod Consistent
pub mod Stored
pub mod Owner
pub mod Revoked
pub mod Deleted
