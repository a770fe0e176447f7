-- ===== src/Mcpserver/Calls/Matched.antt =====
-- The tools on repositories and accounts, beside the requests of an admin.
use ngxborg.Base.{◌≡◌, ◌≢◌, refl, true, false, is_nil}
use ngxborg.Machine.World.{World}
use ngxborg.System.Exec.{Host, run, capture}
use ngxborg.Posix.Groups.{exists}
use ngxborg.Posix.Account
use ngxborg.Mcpserver.Tool.{Args}
use ngxborg.Mcpserver.Calls.{
  name_of, tenant_of, repo_of, user_disable, repo_delete, repo_purge, repo_disable, repo_enable,
}
use ngxborg.Webui.Http.{Request}
use ngxborg.Webui.Session.{Session}
use ngxborg.Webui.Scope.{scope_tenant}
use ngxborg.Webui.Handlers.{
  handle_repos_delete, handle_repos_purge, handle_repos_disable, handle_repos_enable,
  handle_users_disable,
}

-- The request is an admin's, and names what the arguments name.
pub record IsMatch (sess : Session) (r : Request) (a : Args) : Type 0 where
  pub admin : sess.admin ≡ true
  pub tenant : r.path_tenant ≡ tenant_of a
  pub repo : r.path_name ≡ repo_of a
  pub tenant_given : is_nil (tenant_of a) ≡ false
  pub repo_given : is_nil (repo_of a) ≡ false

repo_delete_same :
    (sess : Session) (r : Request) (a : Args) (w : World)
    → IsMatch sess r a
    → (repo_delete a w).0 ≡ (handle_repos_delete sess r w).0
unfolding repo_delete handle_repos_delete scope_tenant
repo_delete_same sess r a w m = rw (m.admin, m.tenant, m.repo, m.tenant_given, m.repo_given) refl

repo_purge_same :
    (sess : Session) (r : Request) (a : Args) (w : World)
    → IsMatch sess r a
    → a.yes ≡ true
    → (repo_purge a w).0 ≡ (handle_repos_purge sess r w).0
unfolding repo_purge handle_repos_purge scope_tenant
repo_purge_same sess r a w m sure =
    rw (m.admin, m.tenant, m.repo, m.tenant_given, m.repo_given, sure) refl

repo_disable_same :
    (sess : Session) (r : Request) (a : Args) (w : World)
    → IsMatch sess r a
    → (repo_disable a w).0 ≡ (handle_repos_disable sess r w).0
unfolding repo_disable handle_repos_disable scope_tenant
repo_disable_same sess r a w m = rw (m.admin, m.tenant, m.repo, m.tenant_given, m.repo_given) refl

repo_enable_same :
    (sess : Session) (r : Request) (a : Args) (w : World)
    → IsMatch sess r a
    → (repo_enable a w).0 ≡ (handle_repos_enable sess r w).0
unfolding repo_enable handle_repos_enable scope_tenant
repo_enable_same sess r a w m = rw (m.admin, m.tenant, m.repo, m.tenant_given, m.repo_given) refl

module _ (host : Host) where
  user_disable_other :
      (r : Request) (a : Args) (w : World)
      → r.path_username ≡ name_of a
      → is_nil (name_of a) ≡ false
      → exists w (name_of a) ≡ true
      → (user_disable host a w).0.history ≢ (handle_users_disable host r w).0.history
  unfolding user_disable handle_users_disable Account.disable run capture
  user_disable_other r a w e n there = rw (e, n, there) (λ h. cc)

  -- For arguments that are not blank, with the confirmation, and the request of an admin's session
  -- that names the same, where the account is there: the tools that delete, purge, disable and
  -- enable a repository leave the machine that the request leaves, but the tool that disables a
  -- user does not: it has run another command.
  pub tools_as_requests :
      (sess : Session) (r : Request) (a : Args) (w : World)
      → IsMatch sess r a
      → a.yes ≡ true
      → r.path_username ≡ name_of a
      → is_nil (name_of a) ≡ false
      → exists w (name_of a) ≡ true
      → ((repo_delete a w).0 ≡ (handle_repos_delete sess r w).0)
        × ((repo_purge a w).0 ≡ (handle_repos_purge sess r w).0)
        × ((repo_disable a w).0 ≡ (handle_repos_disable sess r w).0)
        × ((repo_enable a w).0 ≡ (handle_repos_enable sess r w).0)
        × ((user_disable host a w).0.history ≢ (handle_users_disable host r w).0.history)
  tools_as_requests sess r a w m sure e n there = (
    repo_delete_same sess r a w m,
    repo_purge_same sess r a w m sure,
    repo_disable_same sess r a w m,
    repo_enable_same sess r a w m,
    user_disable_other r a w e n there,
  )
