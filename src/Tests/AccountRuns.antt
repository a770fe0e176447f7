-- ===== src/Tests/AccountRuns.antt =====
-- Accounts, logins and the creation of repositories.
use ngxborg.Base.{◌≡◌, ◌&&◌, refl, true, false, [], ◌∷◌, ◌++◌, arith, if◌then◌else◌}
use ngxborg.Text.{codes, text_eq, is_space, has_prefix, split, split_from, join}
use ngxborg.Text.Decimal.{pos}
use ngxborg.Text.FilePath.{components, clean, clean_from, clean_step, pops, join_path}
use ngxborg.Machine.Accounts.{lookup_user, lookup_group, group_ids, listed_gids}
use ngxborg.Machine.Error.{not_a_tenant, repo_exists, invalid_name, ok, err}
use ngxborg.Machine.Fs.{stat, lookup, path_eq, put}
use ngxborg.Machine.Os.{os_exists}
use ngxborg.System.Exec.{capture}
use ngxborg.Posix.Groups.{exists, is_tenant, in_group, tenant_group, admin_group}
use ngxborg.Posix.Account.{create_user, delete_user, set_password, disable, enable}
use ngxborg.Posix.Account.Commands.{
  dry, live, useradd, join_group, lock_password, account_dry, create_user_commands,
}
use ngxborg.Borgrepo.Name.{valid_name}
use ngxborg.Borgrepo.Repo.{Repo, create_repo, stat_repo}
use ngxborg.Borgrepo.Place.{repo_dir}
use ngxborg.Borgrepo.Repo.Created.{create_repo_refused, create_repo_ok}
use ngxborg.Borgrepo.Place.{base}
use ngxborg.Posix.Account.{uid_gid, scan_uint}
use ngxborg.Borgrepo.Repo.{ensure_owned_dir, dir_size_mb, is_initialized}
use ngxborg.Machine.Os.{os_mkdir_all, mkdir_from, mkdir_step, os_chown, os_read_file, os_stat}
use ngxborg.Borgrepo.Name.{is_alnum, is_name_char}
use ngxborg.Text.Decimal.{atoi, in_range, parse_nat, read_digits, scan_digits}
use ngxborg.Text.{fields, fields_from, index}
use ngxborg.Tests.Data.{machine, quiet_host}

account_dry_example :
    ((create_user quiet_host dry (codes "carol") true machine).0 ≡ machine)
    × ((delete_user quiet_host dry (codes "carol") machine).0 ≡ machine)
    × ((set_password quiet_host dry (codes "carol") (codes "pw") machine).0 ≡ machine)
    × ((disable quiet_host dry (codes "carol") machine).0 ≡ machine)
    × ((enable quiet_host dry (codes "carol") machine).0 ≡ machine)
account_dry_example = account_dry quiet_host (codes "carol") (codes "pw") true machine

create_user_commands_example :
    (exists machine (codes "carol") ≡ false)
    × ((create_user quiet_host live (codes "carol") true machine).0.history
        ≡ lock_password (codes "carol")
          ∷ ((if true then join_group admin_group (codes "carol") ∷ [] else [])
              ++ join_group tenant_group (codes "carol") ∷ useradd (codes "carol") ∷ []))
unfolding create_user
create_user_commands_example = create_user_commands quiet_host (codes "carol") true machine refl

create_repo_refused_example : create_repo quiet_host (codes "carol") (codes "db") machine ≡ (
  machine,
  err (
      if valid_name (codes "carol") && valid_name (codes "db")
      then if is_tenant machine (codes "carol") then repo_exists else not_a_tenant
      else invalid_name),
)
unfolding is_tenant
create_repo_refused_example =
    create_repo_refused quiet_host (codes "carol") (codes "db") machine (ground arith)

abbrev web : Repo
web = record {
  tenant = codes "bob";
  name = codes "web";
  path = repo_dir (codes "bob") (codes "web");
  initialized = false;
  disabled = false;
  size_mb = pos 0;
  created_at = 100;
}

makes_web : (create_repo quiet_host (codes "bob") (codes "web") machine).1 ≡ ok web
unfolding create_repo stat_repo valid_name is_tenant os_exists stat components clean_from split
    repo_dir join_path base clean has_prefix join clean_step uid_gid ensure_owned_dir os_mkdir_all
    is_alnum is_name_char dir_size_mb is_initialized group_ids listed_gids lookup_group lookup_user
    lookup path_eq put mkdir_from mkdir_step os_chown os_read_file os_stat scan_uint exists in_group
    capture atoi in_range parse_nat read_digits scan_digits pops fields fields_from index is_space
    split_from text_eq
makes_web = refl

create_repo_ok_example :
    (valid_name (codes "bob") ≡ true)
    × (valid_name (codes "web") ≡ true)
    × (is_tenant machine (codes "bob") ≡ true)
    × (os_exists machine (repo_dir (codes "bob") (codes "web")) ≡ false)
    × (web.tenant ≡ codes "bob")
    × (web.name ≡ codes "web")
    × (web.path ≡ repo_dir (codes "bob") (codes "web"))
create_repo_ok_example = create_repo_ok quiet_host (codes "bob") (codes "web") machine web makes_web
