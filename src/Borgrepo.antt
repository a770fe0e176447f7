-- ===== src/Borgrepo.antt =====
-- internal/borgrepo: the repositories on disk.
pub mod Name
pub mod Stamp
pub mod Place
pub mod Repo
pub mod Trash
