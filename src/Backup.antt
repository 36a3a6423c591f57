-- ===== src/Backup.antt =====
-- src/backup
pub mod Retention
