-- ===== src/Provision/Files.antt =====
-- internal/provision/context.go, and the helpers of setup.go.
pub mod Written
use ngxborg.Base.{Bool, false, ◌++◌, if◌then◌else◌, ℕ}
use ngxborg.Text.{Text, codes, text_eq}
use ngxborg.Text.FilePath.{dir_of}
use ngxborg.Machine.Error.{unsupported_os, not_set_up, Result, ok, err}
use ngxborg.Machine.World.{M, pure, gets, guard, attempt, ◌>>=◌, ◌>>◌}
use ngxborg.Machine.Os.{os_exists, os_mkdir_all, os_read_file, os_write_file, os_rename}
use ngxborg.System.Exec.{Host, Runner}
use ngxborg.System.Service.{require_root}
use ngxborg.Facts.{Facts, debian_family, detect}
use ngxborg.Borgrepo.Place.{base}

pub record Ctx : Type 0 where
  pub runner : Runner
  pub facts : Facts

-- provision.New(ctx, dryRun)
unfoldable pub new_ctx : Host → Bool → M Ctx
new_ctx host dry_run = do
  facts ← detect host (codes "/")
  pure (record { runner = record { dry_run = dry_run }; facts = facts })

unfoldable pub preflight : Ctx → M (Unit {0})
preflight c = do require_root; guard (debian_family c.facts.os) unsupported_os

abbrev pub holds : Text → Result Text → Bool
holds body (ok existing) = text_eq existing body
holds body (err e) = false

unfoldable pub write_if_changed : Text → Text → ℕ → M (Unit {0})
write_if_changed path body mode = do
  existing ← attempt (os_read_file path)
  if holds body existing then pure tt else (do
    os_mkdir_all (dir_of path) 0o755
    os_write_file (path ++ codes ".tmp") body mode
    os_rename (path ++ codes ".tmp") path)

unfoldable pub require_setup : M (Unit {0})
require_setup = do there ← gets (λ w. os_exists w base); guard there not_set_up
