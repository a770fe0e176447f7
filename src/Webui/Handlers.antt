-- ===== src/Webui/Handlers.antt =====
-- internal/webui/handlers.go: what each request does to the machine, and its answer.
use ngxborg.Base.{
  ℕ, Bool, false, not, ◌&&◌, List, [], ◌∷◌, Option, none, some, if◌then◌else◌, is_nil, length,
}
use ngxborg.Text.{Text, codes, text_eq}
use ngxborg.Machine.Error.{forbidden_tenant, Result, ok, err}
use ngxborg.Machine.World.{World, M, pure, gets, attempt, ◌>>=◌}
use ngxborg.System.Exec.{Host, runner}
use ngxborg.System.Secret.{password}
use ngxborg.Posix.Groups.{is_admin}
use ngxborg.Posix.Members.{list_tenants}
use ngxborg.Posix.Shadow.{is_disabled}
use ngxborg.Posix.Account
use ngxborg.Sshaccess.KeyLine.{KeyEntry}
use ngxborg.Sshaccess.Keys.{add_key, remove_key, list_keys}
use ngxborg.Borgrepo.Place
use ngxborg.Borgrepo.Repo
use ngxborg.Borgrepo.Repo.{create_repo, list_repos, list_all_repos}
use ngxborg.Borgrepo.Trash.{delete, purge}
use ngxborg.Provision.Files.{new_ctx}
use ngxborg.Provision.Doctor.{diagnose}
use ngxborg.Webui.Http.{
  Form, Request, UserInfo, empty, identity, repos, repo, keys, users, generated_password, checks,
  Response, Handler, always, respond, refuse, fail_with, answer, with_ok, with_body,
}
use ngxborg.Webui.Session.{Session}
use ngxborg.Webui.Scope.{scope_tenant}

abbrev done : Unit {0} → Response
done _ = respond 200 empty

unfoldable pub handle_me : Session → Handler
handle_me sess = always (respond 200 (identity sess.username sess.admin))

abbrev account_keys : Result (List KeyEntry) → ℕ
account_keys (ok ks) = length ks
account_keys (err e) = 0

abbrev flag : Result Bool → Bool
flag (ok b) = b
flag (err e) = false

-- The loop of handleUsersList.
unfoldable pub user_infos : List Text → M (List UserInfo)
user_infos [] = pure []
user_infos (name ∷ names) = do
  found ← attempt (list_keys name)
  off ← attempt (is_disabled name)
  admin ← gets (λ w. is_admin w name)
  rest ← user_infos names
  let info : UserInfo = record {
    username = name;
    admin = admin;
    keys = account_keys found;
    disabled = flag off;
  }
  pure (info ∷ rest)

unfoldable pub handle_users_list : Handler
handle_users_list =
    answer 500 (do names ← list_tenants; user_infos names) λ us. respond 200 (users us)

unfoldable pub handle_repos_delete : Session → Request → Handler
handle_repos_delete sess r =
    with_ok 403 (scope_tenant sess r.path_tenant)
      λ tenant. answer 400 (delete tenant r.path_name) done

unfoldable pub handle_repos_purge : Session → Request → Handler
handle_repos_purge sess r =
    with_ok 403 (scope_tenant sess r.path_tenant)
      λ tenant. answer 400 (purge tenant r.path_name) done

unfoldable pub handle_repos_disable : Session → Request → Handler
handle_repos_disable sess r =
    with_ok 403 (scope_tenant sess r.path_tenant)
      λ tenant. answer 400 (Repo.disable tenant r.path_name) done

unfoldable pub handle_repos_enable : Session → Request → Handler
handle_repos_enable sess r =
    with_ok 403 (scope_tenant sess r.path_tenant)
      λ tenant. answer 400 (Repo.enable tenant r.path_name) done

unfoldable pub handle_keys_list : Session → Request → Handler
handle_keys_list sess r =
    with_ok 403 (scope_tenant sess r.query_tenant)
      λ tenant. answer 500 (list_keys tenant) λ ks. respond 200 (keys ks)

unfoldable pub handle_keys_add : Session → Request → Handler
handle_keys_add sess r = with_body r.body λ req.
    with_ok 403 (scope_tenant sess req.tenant) λ tenant w.
      if not (Place.exists w tenant req.repo)
      then (w, refuse 400 (codes "no such repository — create it first"))
      else answer 400 (add_key tenant (Place.path tenant req.repo) req.public_key req.append_only)
          (λ _. respond 201 empty) w

unfoldable pub handle_keys_remove : Session → Request → Handler
handle_keys_remove sess r =
    with_ok 403 (scope_tenant sess r.path_tenant)
      λ tenant. answer 400 (remove_key tenant r.path_material) done

abbrev listed : List Repo.Repo → Response
listed rs = respond 200 (repos rs)

module _ (host : Host) where
  unfoldable pub handle_repos_list : Session → Request → Handler
  handle_repos_list sess r =
      if not sess.admin
      then with_ok 403 (scope_tenant sess r.query_tenant)
          (λ tenant. answer 500 (list_repos host tenant) listed)
      else if not (is_nil r.query_tenant)
      then answer 500 (list_repos host r.query_tenant) listed
      else answer 500 (list_all_repos host) listed

  unfoldable pub handle_repos_create : Session → Request → Handler
  handle_repos_create sess r = with_body r.body λ req.
      with_ok 403 (scope_tenant sess req.tenant)
        λ tenant. answer 400 (create_repo host tenant req.name) λ new. respond 201 (repo new)

  abbrev named_user : Option Form → (Form → Handler) → Handler
  named_user none f = always (refuse 400 (codes "username is required"))
  named_user (some req) f =
      if is_nil req.username then always (refuse 400 (codes "username is required")) else f req

  unfoldable pub handle_users_create : Request → Handler
  handle_users_create r = named_user r.body λ req.
      answer 400 (Account.create_user host runner req.username req.admin) λ _. respond 201 empty

  unfoldable pub handle_users_delete : Request → Handler
  handle_users_delete r = answer 400 (Account.delete_user host runner r.path_username) done

  unfoldable pub handle_users_disable : Request → Handler
  handle_users_disable r = answer 400 (Account.disable host runner r.path_username) done

  unfoldable pub handle_users_enable : Request → Handler
  handle_users_enable r = answer 400 (Account.enable host runner r.path_username) done

  -- The password is set; a generated one is shown.
  abbrev change_password : Text → Text → Text → Handler
  change_password target new shown =
      answer 400 (Account.set_password host runner target new)
        λ _. respond 200 (generated_password shown)

  abbrev pub generated : Text → World × Result Text → World × Response
  generated target (w, ok p) = change_password target p p w
  generated target (w, err e) = (w, refuse 500 (codes "could not generate a password"))

  unfoldable pub handle_passwd : Session → Request → Handler
  handle_passwd sess r = with_body r.body λ req w.
      let target = if is_nil req.username then sess.username else req.username in
      if not sess.admin && not (text_eq target sess.username)
      then (w, fail_with 403 forbidden_tenant)
      else if is_nil req.password
      then generated target (password 20 w)
      else change_password target req.password [] w

  unfoldable pub handle_doctor : Handler
  handle_doctor =
      answer 500 (do c ← new_ctx host false; diagnose host c) λ cs. respond 200 (checks cs)
