-- ===== src/Tests/WebuiRuns.antt =====
-- Requests to the web server.
use ngxborg.Base.{
  ◌≡◌, refl, false, [], ◌∷◌, Option, none, some, arith, if◌then◌else◌, ltb, ◌+◌, ◌∷◌,
}
use ngxborg.Text.{Text, codes, text_eq}
use ngxborg.Posix.Groups.{is_tenant, is_admin}
use ngxborg.Authpam.{authenticate, authenticate_code}
use ngxborg.Webui.Http.{Form, Request, Response, set_to}
use ngxborg.Webui.Session.{
  Session, Sessions, find_session, lookup, new_session, session_ttl, random_hex,
}
use ngxborg.Webui.Server.{Server, me, repos_purge, with_auth, handle_login, handle_logout}
use ngxborg.Webui.Server.Access.{
  named_tenant, with_auth_forbidden, with_auth_logout, handle_login_accepted,
}
use ngxborg.System.Secret.{rand_int}
use ngxborg.Tests.Data.{machine, drawn_out, quiet_host, one_password}

abbrev pub alice_session : Session
alice_session = new_session 100 (codes "alice") false

abbrev one_session : Sessions
one_session = (codes "t1", alice_session) ∷ []

abbrev running : Server
running = record { world = machine; sessions = one_session }

abbrev pub login_data : Text → Text → Form
login_data username password = record {
  tenant = [];
  name = [];
  repo = [];
  public_key = [];
  append_only = false;
  username = username;
  password = password;
  admin = false;
}

abbrev pub request : Option Text → Text → Option Form → Request
request cookie tenant body = record {
  cookie = cookie;
  host = [];
  query_tenant = [];
  path_tenant = tenant;
  path_name = codes "db";
  path_material = [];
  path_username = [];
  body = body;
}

abbrev purge_bob : Request
purge_bob = request (some (codes "t1")) (codes "bob") none

with_auth_forbidden_example :
    ((with_auth quiet_host repos_purge purge_bob running).0 ≡ running)
    × ((with_auth quiet_host repos_purge purge_bob running).1.status ≡ 403)
unfolding lookup find_session text_eq named_tenant
with_auth_forbidden_example =
    with_auth_forbidden quiet_host repos_purge purge_bob running alice_session refl refl
      (λ e. ground arith) (λ e. ground arith)

abbrev stranger : Request
stranger = request (some (codes "t2")) (codes "bob") none

abbrev logged_off : Server
logged_off = (handle_logout purge_bob running).0

with_auth_logout_example :
    ((with_auth quiet_host me purge_bob logged_off).0 ≡ logged_off)
    × ((with_auth quiet_host me purge_bob logged_off).1.status ≡ 401)
with_auth_logout_example = with_auth_logout quiet_host me purge_bob running

abbrev guess : Form
guess = login_data (codes "alice") (codes "wrong")

abbrev guessed : Request
guessed = request none [] (some guess)

abbrev pub right : Form
right = login_data (codes "alice") (codes "secret")

abbrev pub zeros : Text
zeros = codes "0000000000000000000000000000000000000000000000000000000000000000"

abbrev let_in : Server × Response
let_in = handle_login one_password (request none [] (some right)) running

handle_login_accepted_example :
    (let_in.1.status ≡ 200)
    × (let_in.1.cookie ≡ set_to zeros)
    × (lookup 200 (codes "t1") let_in.0.sessions ≡ (
        if text_eq zeros (codes "t1")
        then if ltb (100 + session_ttl) 200
          then none
          else some (new_session 100 (codes "alice") (is_admin machine (codes "alice")))
        else lookup 200 (codes "t1") one_session))
unfolding authenticate authenticate_code text_eq is_tenant random_hex rand_int
handle_login_accepted_example =
    handle_login_accepted one_password (request none [] (some right)) running right drawn_out zeros
      (codes "t1") 200 refl (λ e. ground arith) (λ e. ground arith) refl refl refl
