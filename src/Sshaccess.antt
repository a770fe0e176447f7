-- ===== src/Sshaccess.antt =====
-- internal/sshaccess: the backup transport.
pub mod Files
pub mod PublicKey
pub mod KeyLine
pub mod Keys
pub mod Sshd
