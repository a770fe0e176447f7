-- ===== src/Webui/Server.antt =====
-- internal/webui/server.go, auth.go and the login of handlers.go: which handler a request reaches,
-- and behind which checks.
pub mod Access
pub mod Runs
pub mod Granted
pub mod Entitled
pub mod Lasting
pub mod Passwords
pub mod Isolated
pub mod KeysIsolated
use ngxborg.Base.{
  ℕ, Bool, true, false, not, ◌&&◌, ◌||◌, List, [], ◌∷◌, Option, none, some, if◌then◌else◌, is_nil,
}
use ngxborg.Text.{Text, codes}
use ngxborg.Machine.Error.{Error, Result, ok, err}
use ngxborg.Machine.World.{World}
use ngxborg.System.Exec.{Host}
use ngxborg.Posix.Groups.{is_tenant, is_admin}
use ngxborg.Authpam.{Pam, authenticate}
use ngxborg.Mcpserver.Tool.{Answer, Tool}
use ngxborg.Webui.Http.{
  Form, Request, Payload, empty, identity, Cookie, keep, clear, set_to, Response, Handler, respond,
  refuse,
}
use ngxborg.Webui.Session.{Session, Sessions, lookup, set_session, destroy, random_hex, new_session}
use ngxborg.Webui.Handlers.{
  handle_me, handle_repos_list, handle_repos_create, handle_repos_delete, handle_repos_purge,
  handle_repos_disable, handle_repos_enable, handle_keys_list, handle_keys_add, handle_keys_remove,
  handle_users_list, handle_users_create, handle_users_delete, handle_users_disable,
  handle_users_enable, handle_passwd, handle_doctor,
}
use ngxborg.Webui.ClientInfo.{handle_repo_client_info}

pub record Server : Type 0 where
  pub world : World
  pub sessions : Sessions

abbrev pub Served : Type 0
Served = Server × Response

-- The requests behind `withAuth`.
pub data Route : Type 0 where
  me repos_list repos_create repos_delete repos_purge repos_disable repos_enable : Route
  repos_client_info keys_list keys_add keys_remove : Route
  users_list users_create users_delete users_disable users_enable passwd doctor : Route

-- Those behind `withAdmin` too.
unfoldable pub admin_only : Route → Bool
admin_only users_list = true
admin_only users_create = true
admin_only users_delete = true
admin_only users_disable = true
admin_only users_enable = true
admin_only doctor = true
admin_only _ = false

module _ (host : Host) where
  unfoldable pub handler : Route → Session → Request → Handler
  handler me sess r = handle_me sess
  handler repos_list sess r = handle_repos_list host sess r
  handler repos_create sess r = handle_repos_create host sess r
  handler repos_delete sess r = handle_repos_delete sess r
  handler repos_purge sess r = handle_repos_purge sess r
  handler repos_disable sess r = handle_repos_disable sess r
  handler repos_enable sess r = handle_repos_enable sess r
  handler repos_client_info sess r = handle_repo_client_info sess r
  handler keys_list sess r = handle_keys_list sess r
  handler keys_add sess r = handle_keys_add sess r
  handler keys_remove sess r = handle_keys_remove sess r
  handler users_list sess r = handle_users_list
  handler users_create sess r = handle_users_create host r
  handler users_delete sess r = handle_users_delete host r
  handler users_disable sess r = handle_users_disable host r
  handler users_enable sess r = handle_users_enable host r
  handler passwd sess r = handle_passwd host sess r
  handler doctor sess r = handle_doctor host

  unfoldable pub with_admin : Route → Session → Request → Handler
  with_admin route sess r w =
      if admin_only route && not sess.admin
      then (w, refuse 403 (codes "admin access required"))
      else handler route sess r w

  abbrev on_world : Server → World × Response → Served
  on_world s (w, r) = (record s { world = w }, r)

  abbrev with_session : Route → Request → Server → Option Session → Served
  with_session route r s none =
      (s, record (refuse 401 (codes "session expired")) { cookie = clear })
  with_session route r s (some sess) = on_world s (with_admin route sess r s.world)

  abbrev with_cookie : Route → Request → Server → Option Text → Served
  with_cookie route r s none = (s, refuse 401 (codes "not logged in"))
  with_cookie route r s (some token) = with_session route r s (lookup s.world.now token s.sessions)

  unfoldable pub with_auth : Route → Request → Server → Served
  with_auth route r s = with_cookie route r s r.cookie

abbrev pub start_session : Form → Bool → Server → World × Result Text → Served
start_session req admin s (w, err e) =
    (record s { world = w }, refuse 500 (codes "could not start a session"))
start_session req admin s (w, ok token) = (
  record {
    world = w;
    sessions = set_session token (new_session w.now req.username admin) s.sessions;
  },
  record (respond 200 (identity req.username admin)) { cookie = set_to token },
)

abbrev pub invalid_login : Response
invalid_login = refuse 401 (codes "invalid username or password")

abbrev pub login_as : Pam → Form → Server → Served
login_as pam req s =
    if is_nil req.username || is_nil req.password
    then (s, refuse 400 (codes "username and password are required"))
    else if not (is_tenant s.world req.username)
    then (s, invalid_login)
    else if not (authenticate pam s.world req.username req.password)
    then (s, invalid_login)
    else start_session req (is_admin s.world req.username) s (random_hex 32 s.world)

abbrev pub login_form : Pam → Server → Option Form → Served
login_form pam s none = (s, refuse 400 (codes "username and password are required"))
login_form pam s (some req) = login_as pam req s

unfoldable pub handle_login : Pam → Request → Server → Served
handle_login pam r s = login_form pam s r.body

abbrev pub forget : Option Text → Sessions → Sessions
forget none ss = ss
forget (some token) ss = destroy token ss

unfoldable pub handle_logout : Request → Server → Served
handle_logout r s = (
  record s { sessions = forget r.cookie s.sessions },
  record (respond 200 empty) { cookie = clear },
)

-- A tool's call at /mcp: no session is asked for.
unfoldable pub handle_mcp : Tool → Server → Server × Answer
handle_mcp tool s = (record s { world = (tool s.world).0 }, (tool s.world).1)
