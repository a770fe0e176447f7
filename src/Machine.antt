-- ===== src/Machine.antt =====
-- The machine that ngxborg administers: its file tree, its accounts, its clock, the commands that
-- were run on it, and the program's effects on it with their errors.
pub mod Fs
pub mod Error
pub mod World
pub mod Os
pub mod Accounts
