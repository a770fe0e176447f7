-- ===== src/Borgrepo/Repo.antt =====
-- internal/borgrepo/borgrepo.go: creating, listing, disabling and enabling repositories.
pub mod Modes
pub mod Created
pub mod Others
pub mod Listed
use ngxborg.Base.{
  ℕ, Bool, true, false, not, ◌&&◌, List, [], ◌∷◌, ◌++◌, Option, none, some, if◌then◌else◌, ◌==◌,
  is_some,
}
use ngxborg.Text.{Text, codes, contains, index, fields}
use ngxborg.Text.FilePath.{join_path}
use ngxborg.Text.Decimal.{ℤ, pos, atoi}
use ngxborg.Machine.Fs.{Node, Entry}
use ngxborg.Machine.Error.{
  Error, io, IoError, not_exist, invalid_name, not_a_tenant, repo_exists, no_repo, Result, ok, err,
}
use ngxborg.Machine.World.{World, Invocation, M, pure, gets, guard, attempt, continue, ◌>>=◌, ◌>>◌}
use ngxborg.Machine.Os.{
  os_stat, os_exists, os_mkdir_all, os_chown, os_chmod, os_read_file, os_read_dir,
}
use ngxborg.System.Exec.{Host, Outcome, capture}
use ngxborg.Posix.Groups.{is_tenant}
use ngxborg.Posix.Account.{uid_gid}
use ngxborg.Borgrepo.Name.{valid_name}
use ngxborg.Borgrepo.Place.{base, repo_dir}

pub record Repo : Type 0 where
  pub tenant : Text
  pub name : Text
  pub path : Text
  pub initialized : Bool
  pub disabled : Bool
  pub size_mb : ℤ
  pub created_at : ℕ

abbrev pub disabled_mode : ℕ
disabled_mode = 0

abbrev pub enabled_mode : ℕ
enabled_mode = 0o700

unfoldable pub ensure_owned_dir : Text → ℕ × ℕ → ℕ → M (Unit {0})
ensure_owned_dir dir ids mode = do os_mkdir_all dir mode; os_chown dir ids.0 ids.1

abbrev has_section : Result Text → Bool
has_section (ok body) = contains body (codes "[repository]")
has_section (err e) = false

unfoldable pub is_initialized : Text → M Bool
is_initialized dir = do
  body ← attempt (os_read_file (join_path (dir ∷ codes "config" ∷ [])))
  pure (has_section body)

abbrev size_or_zero : Option ℤ → ℤ
size_or_zero none = pos 0
size_or_zero (some n) = n

abbrev first_number : List Text → ℤ
first_number [] = pos 0
first_number (f ∷ _) = size_or_zero (atoi f)

module _ (host : Host) where
  unfoldable pub dir_size_mb : Text → M ℤ
  dir_size_mb dir w =
      let args = codes "-sm" ∷ dir ∷ [] in
      let done = capture host (record { name = codes "du"; args = args; stdin = [] }) w in
      (done.0, ok (if done.1.success then first_number (fields done.1.stdout) else pos 0))

  unfoldable pub stat_repo : Text → Text → Text → M Repo
  stat_repo tenant name dir = do
    info ← os_stat dir
    initialized ← is_initialized dir
    size ← dir_size_mb dir
    pure (record {
      tenant = tenant;
      name = name;
      path = dir;
      initialized = initialized;
      disabled = info.mode == disabled_mode;
      size_mb = size;
      created_at = info.mtime;
    })

  unfoldable pub create_repo : Text → Text → M Repo
  create_repo tenant name = do
    guard (valid_name tenant) invalid_name
    guard (valid_name name) invalid_name
    registered ← gets (λ w. is_tenant w tenant)
    guard registered not_a_tenant
    let dir = repo_dir tenant name
    there ← gets (λ w. os_exists w dir)
    guard (not there) repo_exists
    ids ← uid_gid tenant
    ensure_owned_dir (join_path (base ∷ tenant ∷ [])) ids 0o750
    ensure_owned_dir dir ids 0o700
    stat_repo tenant name dir

  abbrev repo_list : Result Repo → List Repo
  repo_list (ok r) = r ∷ []
  repo_list (err e) = []

  -- The loop of ListRepos.
  unfoldable pub stat_entries : Text → List Entry → M (List Repo)
  stat_entries tenant [] = pure []
  stat_entries tenant (e ∷ es) = do
    found ←
        (if e.is_dir
          then attempt (stat_repo tenant e.name (repo_dir tenant e.name))
          else pure (err (io not_exist)))
    rest ← stat_entries tenant es
    pure (repo_list found ++ rest)

  abbrev entries_of : Result (List Entry) → M (List Entry)
  entries_of (ok es) w = (w, ok es)
  entries_of (err (io not_exist)) w = (w, ok [])
  entries_of (err e) w = (w, err e)

  unfoldable pub list_repos : Text → M (List Repo)
  list_repos tenant = do
    guard (valid_name tenant) invalid_name
    found ← attempt (os_read_dir (join_path (base ∷ tenant ∷ [])))
    es ← entries_of found
    stat_entries tenant es

  abbrev repos_or_none : Result (List Repo) → List Repo
  repos_or_none (ok rs) = rs
  repos_or_none (err e) = []

  -- The loop of ListAllRepos.
  unfoldable pub list_each : List Entry → M (List Repo)
  list_each [] = pure []
  list_each (t ∷ ts) = do
    found ← (if t.is_dir then attempt (list_repos t.name) else pure (ok []))
    rest ← list_each ts
    pure (repos_or_none found ++ rest)

  unfoldable pub list_all_repos : M (List Repo)
  list_all_repos = do found ← attempt (os_read_dir base); es ← entries_of found; list_each es

unfoldable pub disable : Text → Text → M (Unit {0})
disable tenant name = do
  let dir = repo_dir tenant name
  there ← gets (λ w. os_exists w dir)
  guard there no_repo
  os_chmod dir disabled_mode

unfoldable pub enable : Text → Text → M (Unit {0})
enable tenant name = do
  let dir = repo_dir tenant name
  there ← gets (λ w. os_exists w dir)
  guard there no_repo
  os_chmod dir enabled_mode
