-- ===== src/Posix.antt =====
-- internal/posix: the system accounts that are the tenants.
pub mod Groups
pub mod Shadow
pub mod Account
pub mod Members
