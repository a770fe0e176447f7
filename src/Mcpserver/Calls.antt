-- ===== src/Mcpserver/Calls.antt =====
-- internal/mcpserver/server.go: one function for each registered tool.
pub mod Matched
use ngxborg.Base.{
  ℕ, zero, suc, Bool, true, false, not, ◌&&◌, ◌||◌, List, [], ◌∷◌, Option, none, some,
  if◌then◌else◌, is_nil,
}
use ngxborg.Text.{Text, codes, trim_space, has_prefix}
use ngxborg.Text.Decimal.{ℤ, pos, scan_int}
use ngxborg.Machine.Error.{Error, Result, ok, err}
use ngxborg.Machine.World.{World, M, pure, gets, when, attempt, continue, ◌>>=◌, ◌>>◌}
use ngxborg.Machine.Os.{os_read_file}
use ngxborg.System.Exec.{Host, Runner, runner, run}
use ngxborg.Posix.Groups.{tenant_group, admin_group, in_group, is_admin}
use ngxborg.Posix.Members.{list_tenants}
use ngxborg.Posix.Account.{create_user}
use ngxborg.Sshaccess.Keys.{add_key, remove_key, list_keys}
use ngxborg.Borgrepo.Place.{path}
use ngxborg.Borgrepo.Repo.{create_repo, list_repos, list_all_repos, disable, enable}
use ngxborg.Borgrepo.Trash.{delete, purge}
use ngxborg.Provision.Files.{new_ctx}
use ngxborg.Provision.Setup.{SetupOptions, setup}
use ngxborg.Provision.Doctor.{diagnose}
use ngxborg.Mcpserver.Tool.{
  Args, Answer, missing, failed, succeeded, tenants, keys, repos, checks, version, Tool, outcome,
  call, finished, need,
}

abbrev pub name_of : Args → Text
name_of a = trim_space a.username

abbrev pub tenant_of : Args → Text
tenant_of a = trim_space a.tenant

abbrev pub repo_of : Args → Text
repo_of a = trim_space a.repo

abbrev with_username : Args → (Text → Tool) → Tool
with_username a f =
    if is_nil (name_of a) then need (codes "username is required") else f (name_of a)

abbrev with_repo : Args → (Text → Text → Tool) → Tool
with_repo a f =
    if is_nil (tenant_of a) || is_nil (repo_of a)
    then need (codes "tenant and repo are required")
    else f (tenant_of a) (repo_of a)

module _ (host : Host) where
  unfoldable pub user_create : Args → Tool
  user_create a =
      with_username a λ username. call (create_user host runner username a.admin) finished

  abbrev leave_group : Text → Text → M (Unit {0})
  leave_group username group = do
    member ← gets (λ w. in_group w username group)
    left ←
        attempt
          (when member (run host runner (codes "gpasswd") (codes "-d" ∷ username ∷ group ∷ [])))
    pure tt

  unfoldable pub user_delete : Args → Tool
  user_delete a = with_username a λ username.
      call
        (do
          run host runner (codes "userdel") (codes "--remove" ∷ username ∷ [])
          leave_group username tenant_group
          leave_group username admin_group)
        finished

  unfoldable pub user_disable : Args → Tool
  user_disable a =
      with_username a
        λ username. call (run host runner (codes "passwd") (codes "-l" ∷ username ∷ [])) finished

  unfoldable pub user_enable : Args → Tool
  user_enable a =
      with_username a
        λ username. call (run host runner (codes "passwd") (codes "-u" ∷ username ∷ [])) finished

  unfoldable pub repo_create : Args → Tool
  repo_create a = with_repo a λ tenant repo. call (create_repo host tenant repo) λ _. succeeded

  unfoldable pub repo_list : Args → Tool
  repo_list a =
      if not (is_nil (tenant_of a))
      then call (list_repos host (tenant_of a)) repos
      else call (list_all_repos host) repos

  unfoldable pub doctor : Args → Tool
  doctor a = call (do c ← new_ctx host false; diagnose host c) checks

  abbrev or_zero : Option ℤ → ℤ
  or_zero none = pos 0
  or_zero (some n) = n

  -- A port stays 0 where the text is no number.
  abbrev scan_port : Text → ℤ
  scan_port s = or_zero (scan_int s)

  unfoldable pub system_setup : Args → Tool
  system_setup a =
      call
        (do
          c ← new_ctx host a.dry_run
          setup host c (record {
            admin_port = scan_port a.admin_port;
            borg_port = scan_port a.borg_port;
            tls_mode = [];
            tls_cert = [];
            tls_key = [];
          }))
        finished

-- The roles of the accounts listed.
unfoldable pub with_roles : World → List Text → List (Text × Bool)
with_roles w [] = []
with_roles w (t ∷ ts) = (t, is_admin w t) ∷ with_roles w ts

unfoldable pub user_list : Args → Tool
user_list a w = ((list_tenants w).0, outcome (λ ts. tenants (with_roles w ts)) (list_tenants w).1)

abbrev trimmed : Result Text → Result Text
trimmed (ok s) = ok (trim_space s)
trimmed (err e) = err e

-- A public key given itself, or by "@" and the path of a file.
unfoldable pub key_line : Text → M Text
key_line [] w = (w, ok [])
key_line (c ∷ s) w =
    if has_prefix (c ∷ s) (codes "@")
    then ((os_read_file s w).0, trimmed (os_read_file s w).1)
    else (w, ok (c ∷ s))

unfoldable pub user_key_add : Args → Tool
user_key_add a =
    let pubkey = trim_space a.pubkey in
    if is_nil (name_of a) || is_nil (repo_of a) || is_nil pubkey
    then need (codes "username, repo, and pubkey are required")
    else call
        (do
          line ← key_line pubkey
          add_key (name_of a) (path (name_of a) (repo_of a)) line a.append_only)
        finished

unfoldable pub user_key_list : Args → Tool
user_key_list a = with_username a λ username. call (list_keys username) keys

unfoldable pub user_key_remove : Args → Tool
user_key_remove a =
    let material = trim_space a.key_material in
    if is_nil (name_of a) || is_nil material
    then need (codes "username and key-material are required")
    else call (remove_key (name_of a) material) finished

unfoldable pub repo_delete : Args → Tool
repo_delete a = with_repo a λ tenant repo. call (delete tenant repo) finished

unfoldable pub repo_purge : Args → Tool
repo_purge a = with_repo a λ tenant repo.
    if not a.yes
    then need (codes "Confirmation required: use --yes flag")
    else call (purge tenant repo) finished

unfoldable pub repo_disable : Args → Tool
repo_disable a = with_repo a λ tenant repo. call (disable tenant repo) finished

unfoldable pub repo_enable : Args → Tool
repo_enable a = with_repo a λ tenant repo. call (enable tenant repo) finished

unfoldable pub show_version : Args → Tool
show_version a w = (w, version)
