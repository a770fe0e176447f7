-- ===== src/Mcpserver/Tool.antt =====
-- The arguments and results of the tools of internal/mcpserver/server.go.
use ngxborg.Base.{Bool, List}
use ngxborg.Text.{Text}
use ngxborg.Machine.Error.{Error, Result, ok, err}
use ngxborg.Machine.World.{World, M}
use ngxborg.Sshaccess.KeyLine.{KeyEntry}
use ngxborg.Borgrepo.Repo.{Repo}
use ngxborg.Provision.Doctor.{Check}

-- All the arguments that tools take; those that a call leaves out have the tool's default.
pub record Args : Type 0 where
  pub username : Text
  pub tenant : Text
  pub repo : Text
  pub pubkey : Text
  pub key_material : Text
  pub admin_port : Text
  pub borg_port : Text
  pub admin : Bool
  pub append_only : Bool
  pub yes : Bool
  pub dry_run : Bool

pub data Answer : Type 0 where
  -- mcp.NewToolResultError
  missing : Text → Answer
  failed : Error → Answer
  -- mcp.NewToolResultText: that the call did what it was asked to, or what it found
  succeeded : Answer
  tenants : List (Text × Bool) → Answer
  keys : List KeyEntry → Answer
  repos : List Repo → Answer
  checks : List Check → Answer
  version : Answer

abbrev pub Tool : Type 0
Tool = World → World × Answer

abbrev pub outcome {ℓ} : {A : Type ℓ} → (A → Answer) → Result A → Answer
outcome f (ok a) = f a
outcome f (err e) = failed e

abbrev pub call {ℓ} : {A : Type ℓ} → M A → (A → Answer) → Tool
call m f w = ((m w).0, outcome f (m w).1)

abbrev pub finished : Unit {0} → Answer
finished _ = succeeded

abbrev pub need : Text → Tool
need msg w = (w, missing msg)
