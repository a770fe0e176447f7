-- ===== src/Cli/RepoCommands.antt =====
-- internal/cli/repo.go
use ngxborg.Base.{Bool, true, false, not, List, [], ◌∷◌, ◌++◌, if◌then◌else◌, is_nil, map}
use ngxborg.Text.{Text, codes, text_eq}
use ngxborg.Machine.Error.{usage, ok}
use ngxborg.Machine.World.{M, pure, fail, lift, ◌>>=◌, ◌>>◌}
use ngxborg.System.Exec.{Host}
use ngxborg.Facts.{format_mb}
use ngxborg.Borgrepo.Stamp.{date_only}
use ngxborg.Borgrepo.Repo
use ngxborg.Borgrepo.Repo.{Repo, create_repo, list_repos, list_all_repos}
use ngxborg.Borgrepo.Trash
use ngxborg.Logx.Calls.{Call, section_call, change_call, info_call}
use ngxborg.Cli.Flags.{bool_value, Values, parse, text_flag, bool_flag}
use ngxborg.Cli.Identity.{Identity, resolve_identity, scope_tenant}
use ngxborg.Cli.Input.{Stdin, confirm}
use ngxborg.Cli.Command.{Command, padded, tenant_flag, one_arg, tenant_of}

abbrev slashed : Text → Text → Text
slashed tenant name = tenant ++ (b'/' ∷ name)

abbrev created : Text → Repo → List Call
created tenant r =
    change_call (codes "reserved repository at " ++ r.path)
    ∷ info_call (
        codes "register a key for it with: ngxborg user key add --tenant "
        ++ (tenant ++ (b' ' ∷ (r.name ++ codes " <pubkey-or-@file>"))))
    ∷ info_call (
        codes "then, from the tenant's own machine: borg init --encryption=repokey-blake2 ssh://"
        ++ (tenant ++ (codes "@<this-host>:<borg-port>" ++ r.path)))
    ∷ []

unfoldable pub repo_line : Repo → Call
repo_line r =
    let size =
      if r.initialized
      then format_mb r.size_mb
      else codes "empty (not yet initialized by a borg client)" in
    let state = if r.disabled then size ++ codes " [disabled]" else size in
    info_call (
      padded 14 r.tenant
      ++ (b' '
          ∷ (padded 20 r.name ++ (b' ' ∷ (padded 40 state ++ (b' ' ∷ date_only r.created_at))))))

unfoldable pub repo_lines : List Repo → List Call
repo_lines [] = info_call (codes "no repositories yet — see `ngxborg repo create`") ∷ []
repo_lines (r ∷ rs) = section_call (codes "Repositories") ∷ map repo_line (r ∷ rs)

unfoldable pub cmd_repo_delete : Command
cmd_repo_delete args = do
  p ← lift (parse tenant_flag args)
  name ← lift (one_arg p.args)
  tenant ← tenant_of p
  Trash.delete tenant name
  pure (
      change_call (
        codes "moved "
        ++ (slashed tenant name ++ codes " to the trash — recoverable until `ngxborg repo purge`"))
      ∷ [])

unfoldable pub cmd_repo_disable : Command
cmd_repo_disable args = do
  p ← lift (parse tenant_flag args)
  name ← lift (one_arg p.args)
  tenant ← tenant_of p
  Repo.disable tenant name
  pure (
      change_call (
        codes "disabled "
        ++ (slashed tenant name
            ++ codes " — every SSH key restricted to it is locked out until `ngxborg repo enable`"))
      ∷ [])

unfoldable pub cmd_repo_enable : Command
cmd_repo_enable args = do
  p ← lift (parse tenant_flag args)
  name ← lift (one_arg p.args)
  tenant ← tenant_of p
  Repo.enable tenant name
  pure (change_call (codes "enabled " ++ slashed tenant name) ∷ [])

abbrev pub purge_flags : Values
purge_flags = tenant_flag ++ (codes "yes", bool_value false) ∷ []

abbrev purge_now : Bool → Text → Text → M (List Call)
purge_now false tenant name = pure (info_call (codes "cancelled") ∷ [])
purge_now true tenant name = do
  Trash.purge tenant name
  pure (change_call (codes "permanently deleted " ++ slashed tenant name) ∷ [])

unfoldable pub cmd_repo_purge : Stdin → Command
cmd_repo_purge stdin args = do
  p ← lift (parse purge_flags args)
  name ← lift (one_arg p.args)
  tenant ← tenant_of p
  agreed ← lift (if bool_flag (codes "yes") p then ok true else confirm stdin)
  purge_now agreed tenant name

module _ (host : Host) where
  unfoldable pub cmd_repo_create : Command
  cmd_repo_create args = do
    p ← lift (parse tenant_flag args)
    name ← lift (one_arg p.args)
    tenant ← tenant_of p
    r ← create_repo host tenant name
    pure (created tenant r)

  abbrev repos_for : Identity → Text → M (List Repo)
  repos_for id flag_value =
      if not id.admin
      then (do tenant ← lift (scope_tenant id flag_value); list_repos host tenant)
      else if not (is_nil flag_value)
      then list_repos host flag_value
      else list_all_repos host

  unfoldable pub cmd_repo_list : Command
  cmd_repo_list args = do
    p ← lift (parse tenant_flag args)
    id ← resolve_identity
    rs ← repos_for id (text_flag (codes "tenant") p)
    pure (repo_lines rs)

  abbrev dispatch : Stdin → Text → Command
  dispatch stdin sub rest =
      if text_eq sub (codes "create")
      then cmd_repo_create rest
      else if text_eq sub (codes "list")
      then cmd_repo_list rest
      else if text_eq sub (codes "delete")
      then cmd_repo_delete rest
      else if text_eq sub (codes "purge")
      then cmd_repo_purge stdin rest
      else if text_eq sub (codes "disable")
      then cmd_repo_disable rest
      else if text_eq sub (codes "enable")
      then cmd_repo_enable rest
      else fail usage

  unfoldable pub cmd_repo : Stdin → Command
  cmd_repo stdin [] = fail usage
  cmd_repo stdin (sub ∷ rest) = dispatch stdin sub rest
