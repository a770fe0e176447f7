-- ===== src/Webui/Server/Access.antt =====
-- Who reaches a handler.
use ngxborg.Base.{
  ℕ, ◌+◌, ltb, ◌≡◌, ◌≢◌, refl, true, false, [], ◌∷◌, Option, none, some, arith, if◌then◌else◌,
}
use ngxborg.Text.{Text, text_eq}
use ngxborg.Text.Search.{text_eq_ne, text_eq_refl}
use ngxborg.Machine.Error.{forbidden_tenant, ok, err}
use ngxborg.Machine.World.{World}
use ngxborg.System.Exec.{Host}
use ngxborg.Posix.Groups.{is_tenant, is_admin}
use ngxborg.Authpam.{Pam, authenticate}
use ngxborg.Webui.Http.{Form, Request, Response, set_to}
use ngxborg.Webui.Session.{Session, Sessions, session_ttl, new_session, lookup, random_hex}
use ngxborg.Webui.Session.Laws.{lookup-destroy, lookup-set_session}
use ngxborg.Webui.Scope.{scope_tenant}
use ngxborg.Webui.Handlers.{
  handle_repos_list, handle_repos_create, handle_repos_delete, handle_repos_purge,
  handle_repos_disable, handle_repos_enable, handle_keys_list, handle_keys_add, handle_keys_remove,
  handle_passwd,
}
use ngxborg.Webui.ClientInfo.{handle_repo_client_info}
use ngxborg.Webui.Server.{
  Server, Route, me, repos_list, repos_create, repos_delete, repos_purge, repos_disable,
  repos_enable, repos_client_info, keys_list, keys_add, keys_remove, users_list, users_create,
  users_delete, users_disable, users_enable, doctor, passwd, admin_only, handler, with_admin,
  with_auth, handle_login, handle_logout, forget,
}

-- The session that a request's cookie stands for.
abbrev pub session_for : Option Text → ℕ → Sessions → Option Session
session_for none now ss = none
session_for (some token) now ss = lookup now token ss

abbrev pub session_of : Request → Server → Option Session
session_of r s = session_for r.cookie s.world.now s.sessions

logged_out : (c : Option Text) (now : ℕ) (ss : Sessions) → session_for c now (forget c ss) ≡ none
logged_out none now ss = refl
logged_out (some token) now ss = rw (lookup-destroy now token token ss, text_eq_refl token)

abbrev form_tenant : Option Form → Text
form_tenant none = []
form_tenant (some f) = f.tenant

abbrev form_username : Option Form → Text
form_username none = []
form_username (some f) = f.username

-- The account that a request names, in the place where its route reads it.
unfoldable pub named_tenant : Route → Request → Text
named_tenant repos_list r = r.query_tenant
named_tenant repos_create r = form_tenant r.body
named_tenant repos_delete r = r.path_tenant
named_tenant repos_purge r = r.path_tenant
named_tenant repos_disable r = r.path_tenant
named_tenant repos_enable r = r.path_tenant
named_tenant repos_client_info r = r.path_tenant
named_tenant keys_list r = r.query_tenant
named_tenant keys_add r = form_tenant r.body
named_tenant keys_remove r = r.path_tenant
named_tenant passwd r = form_username r.body
named_tenant users_create r = form_username r.body
named_tenant users_delete r = r.path_username
named_tenant users_disable r = r.path_username
named_tenant users_enable r = r.path_username
named_tenant me r = []
named_tenant users_list r = []
named_tenant doctor r = []

scope_refuses :
    (sess : Session) (t : Text)
    → sess.admin ≡ false
    → t ≢ []
    → t ≢ sess.username
    → scope_tenant sess t ≡ err forbidden_tenant
unfolding scope_tenant
scope_refuses sess [] a e n = absurd (e refl)
scope_refuses sess (c ∷ t) a e n = ground (arith, text_eq_ne (c ∷ t) sess.username n)

module _ (host : Host) where
  -- Without a session that is still valid, every route behind `withAuth` answers 401 and changes
  -- neither the machine nor the sessions.
  pub with_auth_unknown :
      (route : Route) (r : Request) (s : Server)
      → session_of r s ≡ none
      → ((with_auth host route r s).0 ≡ s) × ((with_auth host route r s).1.status ≡ 401)
  unfolding with_auth
  with_auth_unknown route r s h = ground arith

  -- With a session that is not an admin's, every route for admins answers 403 and changes nothing.
  pub with_auth_not_admin :
      (route : Route) (r : Request) (s : Server) (sess : Session)
      → session_of r s ≡ some sess
      → admin_only route ≡ true
      → sess.admin ≡ false
      → ((with_auth host route r s).0 ≡ s) × ((with_auth host route r s).1.status ≡ 403)
  unfolding with_auth with_admin
  with_auth_not_admin route r s sess h only a = ground arith

  -- The machine is as it was, and the answer is 403.
  abbrev Forbids : World → World × Response → Type 0
  Forbids w served = (served.0 ≡ w) × (served.1.status ≡ 403)

  create_forbidden :
      (r : Request) (sess : Session) (w : World) (body : Option Form)
      → r.body ≡ body
      → sess.admin ≡ false
      → form_tenant body ≢ []
      → form_tenant body ≢ sess.username
      → Forbids w (handle_repos_create host sess r w)
  unfolding handle_repos_create
  create_forbidden r sess w none b a e n = absurd (e refl)
  create_forbidden r sess w (some f) b a e n =
      rw (b, scope_refuses sess f.tenant a e n) (refl, refl)

  keys_add_forbidden :
      (r : Request) (sess : Session) (w : World) (body : Option Form)
      → r.body ≡ body
      → sess.admin ≡ false
      → form_tenant body ≢ []
      → form_tenant body ≢ sess.username
      → Forbids w (handle_keys_add sess r w)
  unfolding handle_keys_add
  keys_add_forbidden r sess w none b a e n = absurd (e refl)
  keys_add_forbidden r sess w (some f) b a e n =
      rw (b, scope_refuses sess f.tenant a e n) (refl, refl)

  passwd_forbidden :
      (r : Request) (sess : Session) (w : World) (body : Option Form)
      → r.body ≡ body
      → sess.admin ≡ false
      → form_username body ≢ []
      → form_username body ≢ sess.username
      → Forbids w (handle_passwd host sess r w)
  unfolding handle_passwd
  passwd_forbidden r sess w none b a e n = absurd (e refl)
  passwd_forbidden r sess w (some f) b a e n =
      rw b (ground (arith, text_eq_ne f.username sess.username n))

  with_admin_forbidden :
      (route : Route) (r : Request) (sess : Session) (w : World)
      → sess.admin ≡ false
      → named_tenant route r ≢ []
      → named_tenant route r ≢ sess.username
      → Forbids w (with_admin host route sess r w)
  unfolding with_admin admin_only handler named_tenant handle_repos_list handle_repos_delete
      handle_repos_purge handle_repos_disable handle_repos_enable handle_keys_list
      handle_keys_remove handle_repo_client_info
  with_admin_forbidden me r sess w a e n = absurd (e refl)
  with_admin_forbidden repos_list r sess w a e n =
      ground (arith, scope_refuses sess r.query_tenant a e n)
  with_admin_forbidden repos_create r sess w a e n = create_forbidden r sess w r.body refl a e n
  with_admin_forbidden repos_delete r sess w a e n =
      rw (scope_refuses sess r.path_tenant a e n) (refl, refl)
  with_admin_forbidden repos_purge r sess w a e n =
      rw (scope_refuses sess r.path_tenant a e n) (refl, refl)
  with_admin_forbidden repos_disable r sess w a e n =
      rw (scope_refuses sess r.path_tenant a e n) (refl, refl)
  with_admin_forbidden repos_enable r sess w a e n =
      rw (scope_refuses sess r.path_tenant a e n) (refl, refl)
  with_admin_forbidden repos_client_info r sess w a e n =
      rw (scope_refuses sess r.path_tenant a e n) (refl, refl)
  with_admin_forbidden keys_list r sess w a e n =
      rw (scope_refuses sess r.query_tenant a e n) (refl, refl)
  with_admin_forbidden keys_add r sess w a e n = keys_add_forbidden r sess w r.body refl a e n
  with_admin_forbidden keys_remove r sess w a e n =
      rw (scope_refuses sess r.path_tenant a e n) (refl, refl)
  with_admin_forbidden passwd r sess w a e n = passwd_forbidden r sess w r.body refl a e n
  with_admin_forbidden users_create r sess w a e n = ground (arith, a)
  with_admin_forbidden users_delete r sess w a e n = ground (arith, a)
  with_admin_forbidden users_disable r sess w a e n = ground (arith, a)
  with_admin_forbidden users_enable r sess w a e n = ground (arith, a)
  with_admin_forbidden users_list r sess w a e n = absurd (e refl)
  with_admin_forbidden doctor r sess w a e n = absurd (e refl)

  -- For a session that is not an admin's, every route at which the request names an account other
  -- than the session's own, in the query, the path or the body, answers 403 and changes nothing.
  pub with_auth_forbidden :
      (route : Route) (r : Request) (s : Server) (sess : Session)
      → session_of r s ≡ some sess
      → sess.admin ≡ false
      → named_tenant route r ≢ []
      → named_tenant route r ≢ sess.username
      → ((with_auth host route r s).0 ≡ s) × ((with_auth host route r s).1.status ≡ 403)
  unfolding with_auth
  with_auth_forbidden route r s sess h a e n =
      ground (arith, with_admin_forbidden route r sess s.world a e n)

  -- A logout ends the session: with the same cookie every route behind `withAuth` then answers
  -- 401 and changes nothing.
  pub with_auth_logout :
      (route : Route) (r : Request) (s : Server)
      → let out = (handle_logout r s).0 in
        ((with_auth host route r out).0 ≡ out) × ((with_auth host route r out).1.status ≡ 401)
  unfolding handle_logout
  with_auth_logout route r s =
      with_auth_unknown route r (handle_logout r s).0 (logged_out r.cookie s.world.now s.sessions)

module _ (pam : Pam) where
  -- A login of a tenant that PAM accepts answers 200 and sets the cookie to a fresh token, which
  -- from then on stands for a session of that account, with its admin rights at the login, until
  -- the session is over; no other token's session changes.
  pub handle_login_accepted :
      (r : Request) (s : Server) (req : Form) (w : World) (token other : Text) (later : ℕ)
      → r.body ≡ some req
      → req.username ≢ []
      → req.password ≢ []
      → is_tenant s.world req.username ≡ true
      → authenticate pam s.world req.username req.password ≡ true
      → random_hex 32 s.world ≡ (w, ok token)
      → let done = handle_login pam r s in
        (done.1.status ≡ 200)
        × (done.1.cookie ≡ set_to token)
        × (lookup later other done.0.sessions ≡ (
            if text_eq token other
            then if ltb (w.now + session_ttl) later
              then none
              else some (new_session w.now req.username (is_admin s.world req.username))
            else lookup later other s.sessions))
  unfolding handle_login
  handle_login_accepted r s req w token other later b u p t a e = ground (
    arith,
    lookup-set_session w.now later token other req.username (is_admin s.world req.username)
        s.sessions,
  )
