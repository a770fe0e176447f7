-- ===== src/System.antt =====
-- internal/system: the commands and services that the program drives.
pub mod Exec
pub mod Service
pub mod Apt
pub mod Secret
