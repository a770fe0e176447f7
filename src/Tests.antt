-- ===== src/Tests.antt =====
-- Runs of the definitions at concrete inputs.
pub mod Data
pub mod WebuiRuns
pub mod SshRuns
pub mod RepoRuns
pub mod TrashRuns
pub mod AccountRuns
pub mod LogRuns
pub mod CliRuns
pub mod SetupRuns
pub mod KeyRuns
pub mod ServerRuns
pub mod ToolRuns
pub mod CommandRuns
