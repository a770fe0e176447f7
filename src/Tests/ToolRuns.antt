-- ===== src/Tests/ToolRuns.antt =====
-- Tools for agents, beside requests of an admin.
use ngxborg.Base.{◌≡◌, ◌≢◌, refl, true, false, [], none}
use ngxborg.Text.{codes, text_eq, trim_space, trim_left, trim_right, is_space}
use ngxborg.Machine.Accounts
use ngxborg.Posix.Groups.{exists}
use ngxborg.Mcpserver.Tool.{Args}
use ngxborg.Mcpserver.Calls.{user_disable, repo_delete, repo_purge, repo_disable, repo_enable}
use ngxborg.Mcpserver.Calls.Matched.{IsMatch, tools_as_requests}
use ngxborg.Webui.Http.{Request}
use ngxborg.Webui.Session.{Session, new_session}
use ngxborg.Webui.Handlers.{
  handle_repos_delete, handle_repos_purge, handle_repos_disable, handle_repos_enable,
  handle_users_disable,
}
use ngxborg.Tests.Data.{machine, quiet_host}
use ngxborg.Tests.WebuiRuns.{request}

abbrev asked : Args
asked = record {
  username = codes " alice ";
  tenant = codes "bob";
  repo = codes "db ";
  pubkey = [];
  key_material = [];
  admin_port = [];
  borg_port = [];
  admin = false;
  append_only = false;
  yes = true;
  dry_run = false;
}

abbrev bob_session : Session
bob_session = new_session 100 (codes "bob") true

abbrev asks : Request
asks = record (request none (codes "bob") none) { path_username = codes "alice" }

asks-IsMatch : IsMatch bob_session asks asked
unfolding trim_space trim_left trim_right is_space
asks-IsMatch = record {
  admin = refl;
  tenant = refl;
  repo = refl;
  tenant_given = refl;
  repo_given = refl;
}

alice_there : exists machine (codes "alice") ≡ true
unfolding exists Accounts.lookup_user text_eq
alice_there = refl

tools_as_requests_example :
    ((repo_delete asked machine).0 ≡ (handle_repos_delete bob_session asks machine).0)
    × ((repo_purge asked machine).0 ≡ (handle_repos_purge bob_session asks machine).0)
    × ((repo_disable asked machine).0 ≡ (handle_repos_disable bob_session asks machine).0)
    × ((repo_enable asked machine).0 ≡ (handle_repos_enable bob_session asks machine).0)
    × ((user_disable quiet_host asked machine).0.history
        ≢ (handle_users_disable quiet_host asks machine).0.history)
unfolding trim_space trim_left trim_right is_space
tools_as_requests_example =
    tools_as_requests quiet_host bob_session asks asked machine asks-IsMatch refl refl refl
      alice_there
