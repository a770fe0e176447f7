-- ===== src/Webui/Server/Isolated.antt =====
-- What a request of one tenant leaves to the others.
use ngxborg.Base.{
  ◌≡◌, ◌≢◌, ◌⊎◌, refl, sym, ap, ◌∙◌, Bool, true, false, List, Option, none, some, arith, inl, inr,
  not, if◌then◌else◌,
}
use ngxborg.Text.{Text}
use ngxborg.Machine.Fs.{stat}
use ngxborg.Machine.Fs.Names.{IsTree}
use ngxborg.Machine.Error.{forbidden_tenant, ok, err}
use ngxborg.Machine.World.{World}
use ngxborg.System.Exec.{Host}
use ngxborg.Borgrepo.Name.{valid_name}
use ngxborg.Borgrepo.Place.Others.{tenant_path}
use ngxborg.Borgrepo.Repo.Others.{
  IsReader, disable-Spares, enable-Spares, create_repo-Spares, list_repos-Spares,
}
use ngxborg.Borgrepo.Trash.Others.{delete-Spares, purge_same}
use ngxborg.Webui.Http.{Form, Request, Handler, with_ok}
use ngxborg.Webui.Session.{Session}
use ngxborg.Webui.Scope.{scope_tenant}
use ngxborg.Webui.Handlers.{
  handle_repos_list, handle_repos_create, handle_repos_delete, handle_repos_purge,
  handle_repos_disable, handle_repos_enable,
}
use ngxborg.Webui.Server.{
  Server, Route, repos_list, repos_create, repos_delete, repos_purge, repos_disable, repos_enable,
  admin_only, handler, with_admin, with_auth,
}
use ngxborg.Webui.Server.Access.{session_of}

-- The request lists or creates repositories, or deletes, purges, disables or enables one by a valid
-- name.
unfoldable pub on_repos : Route → Request → Bool
on_repos repos_list r = true
on_repos repos_create r = true
on_repos repos_delete r = valid_name r.path_name
on_repos repos_purge r = valid_name r.path_name
on_repos repos_disable r = valid_name r.path_name
on_repos repos_enable r = valid_name r.path_name
on_repos _ r = false

pub scope_cases :
    (sess : Session) (t : Text)
    → sess.admin ≡ false
    → (scope_tenant sess t ≡ ok sess.username) ⊎ (scope_tenant sess t ≡ err forbidden_tenant)
unfolding scope_tenant
scope_cases sess t a = ground arith

-- A handler that goes on with the session's own account, if at all.
pub scoped_same :
    (q : List Text) (sess : Session) (t : Text) (f : Text → Handler) (w : World)
    → sess.admin ≡ false
    → stat q (f sess.username w).0.fs ≡ stat q w.fs
    → stat q (with_ok 403 (scope_tenant sess t) f w).0.fs ≡ stat q w.fs
scoped_same q sess t f w a h = elim (scope_cases sess t a) [ inl e ↦ rw e h | inr e ↦ rw e refl ]

-- A test for an admin that fails.
taken_same :
    (q : List Text) (admin : Bool) (f g : Handler) (w : World)
    → admin ≡ false
    → stat q (f w).0.fs ≡ stat q w.fs
    → stat q ((if not admin then f else g) w).0.fs ≡ stat q w.fs
taken_same q true f g w a h = absurd (ground (arith, a))
taken_same q false f g w a h = h

module _ (host : Host) where
  pub with_auth-world :
      (route : Route) (r : Request) (s : Server) (sess : Session)
      → session_of r s ≡ some sess
      → admin_only route ≡ false
      → (with_auth host route r s).0.world ≡ (handler host route sess r s.world).0
  unfolding with_auth with_admin
  with_auth-world route r s sess h o = ground arith

module _ (host : Host) (reader : IsReader host) where
  create_same :
      (sess : Session) (r : Request) (body : Option Form) (w : World) (u : Text) (rest : List Text)
      → r.body ≡ body
      → sess.admin ≡ false
      → valid_name sess.username ≡ true
      → u ≢ sess.username
      → stat (tenant_path u rest) (handle_repos_create host sess r w).0.fs
        ≡ stat (tenant_path u rest) w.fs
  unfolding handle_repos_create
  create_same sess r none w u rest e a v n = rw e refl
  create_same sess r (some req) w u rest e a v n = rw e (
      scoped_same (tenant_path u rest) sess req.tenant _ w a (
        (create_repo-Spares host reader sess.username req.name u rest v (λ k. n (sym k))).spares w))

  handler_same :
      (route : Route) (r : Request) (sess : Session) (w : World) (u : Text) (rest : List Text)
      → sess.admin ≡ false
      → valid_name sess.username ≡ true
      → on_repos route r ≡ true
      → u ≢ sess.username
      → IsTree w.fs
      → stat (tenant_path u rest) (handler host route sess r w).0.fs
        ≡ stat (tenant_path u rest) w.fs
  unfolding handler on_repos handle_repos_list handle_repos_delete handle_repos_purge
      handle_repos_disable handle_repos_enable
  handler_same repos_list r sess w u rest a v o n h =
      taken_same (tenant_path u rest) sess.admin _ _ w a (
        scoped_same (tenant_path u rest) sess r.query_tenant _ w a
          ((list_repos-Spares host reader sess.username).spares w))
  handler_same repos_create r sess w u rest a v o n h =
      create_same sess r r.body w u rest refl a v n
  handler_same repos_delete r sess w u rest a v o n h =
      scoped_same (tenant_path u rest) sess r.path_tenant _ w a
        ((delete-Spares sess.username r.path_name u rest v o (λ k. n (sym k))).spares w)
  handler_same repos_purge r sess w u rest a v o n h =
      scoped_same (tenant_path u rest) sess r.path_tenant _ w a
        (purge_same sess.username r.path_name v u rest w o (λ k. n (sym k)) h)
  handler_same repos_disable r sess w u rest a v o n h =
      scoped_same (tenant_path u rest) sess r.path_tenant _ w a
        ((disable-Spares sess.username r.path_name u rest v o (λ k. n (sym k))).spares w)
  handler_same repos_enable r sess w u rest a v o n h =
      scoped_same (tenant_path u rest) sess r.path_tenant _ w a
        ((enable-Spares sess.username r.path_name u rest v o (λ k. n (sym k))).spares w)
  handler_same _ r sess w u rest a v o n h = absurd (ground (arith, o))

  for_all : (route : Route) (r : Request) → on_repos route r ≡ true → admin_only route ≡ false
  unfolding on_repos admin_only
  for_all route r h = ground arith

  -- Where `du` changes no file and no name in the file tree holds a slash: a request of a session
  -- that is not an admin's, with a valid account name, that lists or creates repositories, or
  -- deletes, purges, disables or enables one by a valid name, leaves everything in the directories
  -- of other tenants as it is, whatever else it names and however it ends.
  pub with_auth_isolated :
      (route : Route) (r : Request) (s : Server) (sess : Session) (u : Text) (rest : List Text)
      → session_of r s ≡ some sess
      → sess.admin ≡ false
      → valid_name sess.username ≡ true
      → on_repos route r ≡ true
      → u ≢ sess.username
      → IsTree s.world.fs
      → stat (tenant_path u rest) (with_auth host route r s).0.world.fs
        ≡ stat (tenant_path u rest) s.world.fs
  with_auth_isolated route r s sess u rest e a v o n h =
      ap (λ w. stat (tenant_path u rest) w.fs)
        (with_auth-world host route r s sess e (for_all route r o))
      ∙ handler_same route r sess s.world u rest a v o n h
