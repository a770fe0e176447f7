-- ===== src/Cli.antt =====
-- internal/cli: the command line. What a command prints is the list of its calls of logx; the
-- calls of the packages below it are left out.
pub mod Flags
pub mod Identity
pub mod Input
pub mod Command
pub mod RepoCommands
pub mod KeyCommands
pub mod UserCommands
pub mod SetupCommands
pub mod Run
pub mod Scoped
pub mod Deployed
