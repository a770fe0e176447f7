-- ===== src/Tests/ServerRuns.antt =====
-- The web server from its start.
use ngxborg.Base.{◌≡◌, ◌⊎◌, refl, true, List, [], ◌∷◌, none, some}
use ngxborg.Text.{Text, codes, text_eq, contains_char, join}
use ngxborg.Machine.Fs.{stat, is_above}
use ngxborg.Machine.Fs.Names.{IsTree}
use ngxborg.Borgrepo.Name.{valid_name, is_name_char, is_alnum}
use ngxborg.Borgrepo.Place.Others.{tenant_path}
use ngxborg.Machine.Accounts
use ngxborg.Machine.World.{User}
use ngxborg.Borgrepo.Place.Confined.{valid_name-IsSegment}
use ngxborg.Webui.Server.KeysIsolated.{on_keys, AreApart, IsHome, with_auth_home_only}
use ngxborg.Webui.Server.Isolated.{on_repos, with_auth_isolated}
use ngxborg.System.Exec.{run}
use ngxborg.System.Secret.{rand_int}
use ngxborg.Posix.Account.{disable}
use ngxborg.Posix.Groups.{is_tenant, is_admin, exists}
use ngxborg.Authpam.{authenticate, authenticate_code}
use ngxborg.Webui.Http.{Request}
use ngxborg.Webui.Session.{
  Session, new_session, find_session, lookup, set_session, destroy, random_hex,
}
use ngxborg.Webui.Handlers.{handle_users_disable}
use ngxborg.Webui.Server.{
  passwd, keys_remove, Server, repos_purge, users_disable, admin_only, handler, with_auth,
  with_admin, handle_login,
}
use ngxborg.Webui.Server.Access.{session_of}
use ngxborg.Webui.Server.Runs.{Reach, here, next, login, IsGranted}
use ngxborg.Webui.Server.Granted.{Reach-IsGranted}
use ngxborg.Webui.Server.Entitled.{IsRefused, IsEntitled, with_auth-IsEntitled}
use ngxborg.Webui.Server.Lasting.{with_auth_lasting}
use ngxborg.Tests.Data.{machine, quiet_host, one_password}
use ngxborg.Webui.Server.Passwords.{IsOwn, with_auth-IsOwn_password}
use ngxborg.Tests.WebuiRuns.{login_data, request, right, zeros, alice_session}

abbrev start : Server
start = record { world = machine; sessions = [] }

abbrev enters : Request
enters = request none [] (some right)

abbrev entered : Server
entered = (handle_login one_password enters start).0

reaches : Reach quiet_host one_password start entered
reaches = next here (login enters start)

Reach-IsGranted_example : IsGranted quiet_host one_password start entered alice_session
unfolding handle_login authenticate authenticate_code text_eq is_tenant is_admin random_hex rand_int
    set_session destroy find_session
Reach-IsGranted_example =
    Reach-IsGranted quiet_host one_password start entered zeros alice_session refl reaches refl

abbrev purge_own : Request
purge_own = request (some zeros) (codes "alice") none

with_auth-IsEntitled_example :
    IsRefused quiet_host one_password repos_purge purge_own entered
    ⊎ ((sess : Session) × (session_of purge_own entered ≡ some sess)
        × IsEntitled quiet_host one_password start entered repos_purge purge_own sess)
with_auth-IsEntitled_example =
    with_auth-IsEntitled quiet_host one_password start entered repos_purge purge_own refl reaches

abbrev both : Server
both = record {
  world = machine;
  sessions = (codes "t1", alice_session) ∷ (codes "t2", new_session 100 (codes "bob") true) ∷ [];
}

abbrev disable_alice : Request
disable_alice = record (request (some (codes "t2")) [] none) { path_username = codes "alice" }

abbrev without_alice : Server
without_alice = (with_auth quiet_host users_disable disable_alice both).0

abbrev as_before : Request
as_before = request (some (codes "t1")) (codes "alice") none

with_auth_lasting_example :
    let done = handler quiet_host repos_purge alice_session as_before without_alice.world in
    with_auth quiet_host repos_purge as_before without_alice
    ≡ (record without_alice { world = done.0 }, done.1)
unfolding lookup find_session text_eq admin_only with_auth with_admin handler handle_users_disable
    disable run exists
with_auth_lasting_example =
    with_auth_lasting quiet_host users_disable repos_purge disable_alice as_before both (codes "t1")
      alice_session refl refl refl

abbrev purge_mail : Request
purge_mail = record (request (some (codes "t1")) (codes "alice") none) { path_name = codes "mail" }

abbrev db_of_bob : List Text
db_of_bob = tenant_path (codes "bob") (codes "db" ∷ [])

machine-IsTree : IsTree machine.fs
unfolding contains_char
machine-IsTree = (
  (refl, (refl, (refl, (refl, (refl, (refl, tt)))))),
  ((refl, (refl, (refl, (refl, (refl, (refl, tt)))))), tt),
)

alice_valid : valid_name (codes "alice") ≡ true
unfolding valid_name is_name_char is_alnum
alice_valid = refl

purge_mail_valid : on_repos repos_purge purge_mail ≡ true
unfolding on_repos valid_name is_name_char is_alnum
purge_mail_valid = refl

with_auth_isolated_example :
    stat db_of_bob (with_auth quiet_host repos_purge purge_mail both).0.world.fs
    ≡ stat db_of_bob machine.fs
unfolding lookup find_session text_eq
with_auth_isolated_example =
    with_auth_isolated quiet_host (λ w args. refl) repos_purge purge_mail both alice_session
      (codes "bob") (codes "db" ∷ []) refl refl alice_valid purge_mail_valid (λ e. cc)
      machine-IsTree

abbrev remove_own : Request
remove_own = record (request (some (codes "t1")) [] none) { path_material = codes "AAAA" }

abbrev alice_home : List Text
alice_home = codes "home" ∷ codes "alice" ∷ []

abbrev bob_ssh : List Text
bob_ssh = codes "home" ∷ codes "bob" ∷ codes ".ssh" ∷ []

abbrev alice_user : User
alice_user = record {
  name = codes "alice";
  uid = codes "1001";
  gid = codes "1001";
  home = codes "/home/alice";
}

alice-IsHome : IsHome machine (codes "alice") alice_user alice_home
unfolding Accounts.lookup_user text_eq join valid_name is_name_char is_alnum
alice-IsHome = record {
  found = refl;
  at = refl;
  plain = (
    valid_name-IsSegment (codes "home") refl,
    (valid_name-IsSegment (codes "alice") alice_valid, tt),
  );
}

homes-AreApart : AreApart alice_home bob_ssh
unfolding is_above text_eq
homes-AreApart = record { not_above = refl; not_below = refl }

with_auth_home_only_example :
    stat bob_ssh (with_auth quiet_host keys_remove remove_own both).0.world.fs
    ≡ stat bob_ssh machine.fs
unfolding lookup find_session text_eq on_keys
with_auth_home_only_example =
    with_auth_home_only quiet_host alice_user (codes "home") (codes "home") (codes "alice" ∷ [])
      (codes "bob" ∷ codes ".ssh" ∷ []) homes-AreApart keys_remove remove_own both alice_session
      refl refl refl alice-IsHome

abbrev new_password : Request
new_password = request (some (codes "t1")) [] (some (login_data [] (codes "pw")))

with_auth-IsOwn_password_example :
    IsOwn (codes "alice") machine (with_auth quiet_host passwd new_password both).0.world
unfolding lookup find_session text_eq
with_auth-IsOwn_password_example =
    with_auth-IsOwn_password quiet_host new_password both alice_session refl refl
