-- ===== src/Security.antt =====
pub mod Anonymize
pub mod Random
pub mod Slug
pub mod Samples
pub mod Token
pub mod SecurityId
