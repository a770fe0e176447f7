-- ===== src/Borgrepo/Repo/Others.antt =====
-- What creating, listing, disabling and enabling leave as it is: the directories of other tenants.
use ngxborg.Base.{
  ℕ, ◌≡◌, ◌≢◌, refl, true, not, List, [], ◌∷◌, ◌++◌, arith, Bool-cases, inl, inr, if◌then◌else◌,
  ◌==◌,
}
use ngxborg.Text.{Text, codes}
use ngxborg.Text.FilePath.{join_path}
use ngxborg.Machine.Fs.{Entry}
use ngxborg.Machine.Error.{
  Result, err, not_exist, io, invalid_name, not_a_tenant, repo_exists, no_repo,
}
use ngxborg.Machine.World.{World, pure, attempt}
use ngxborg.Machine.Os.{
  os_stat, os_read_file, os_read_dir, os_mkdir_all, os_chmod, os_chown, os_exists,
}
use ngxborg.Machine.Os.Frames.{
  Spares, guard-Spares, gets-Spares, pure-Spares, >>=-Spares, >>-Spares, if-Spares, attempt-Spares,
  same_tree-Spares, step-Spares, stat-os_mkdir_all, stat-os_chmod, stat-os_chown,
}
use ngxborg.System.Exec.{Host, capture}
use ngxborg.Posix.Account.{uid_gid}
use ngxborg.Posix.Groups.{is_tenant}
use ngxborg.Borgrepo.Name.{valid_name}
use ngxborg.Borgrepo.Place.{base, repo_dir}
use ngxborg.Borgrepo.Place.Others
use ngxborg.Borgrepo.Place.Others.{tenant_path}
use ngxborg.Borgrepo.Repo.{
  disable, enable, disabled_mode, enabled_mode, ensure_owned_dir, is_initialized, has_section,
  dir_size_mb, stat_repo, create_repo, repo_list, stat_entries, entries_of, list_repos,
}

-- What `du` promises: it changes no file.
abbrev pub IsReader : Host → Type 0
IsReader host =
    (w : World) (args : List Text)
    → (host.exec w (record { name = codes "du"; args = args; stdin = [] })).0.fs ≡ w.fs

os_stat-Spares : {q : List Text} (path : Text) → Spares q (os_stat path)
unfolding os_stat
os_stat-Spares path = same_tree-Spares (os_stat path) (λ w. ground arith)

os_read_file-Spares : {q : List Text} (path : Text) → Spares q (os_read_file path)
unfolding os_read_file
os_read_file-Spares path = same_tree-Spares (os_read_file path) (λ w. ground arith)

pub os_read_dir-Spares : {q : List Text} (path : Text) → Spares q (os_read_dir path)
unfolding os_read_dir
os_read_dir-Spares path = same_tree-Spares (os_read_dir path) (λ w. ground arith)

uid_gid-Spares : {q : List Text} (t : Text) → Spares q (uid_gid t)
unfolding uid_gid
uid_gid-Spares t = same_tree-Spares (uid_gid t) (λ w. ground arith)

module _ (host : Host) (reader : IsReader host) where
  stat_repo-Spares : {q : List Text} (t n dir : Text) → Spares q (stat_repo host t n dir)
  unfolding stat_repo is_initialized dir_size_mb capture
  stat_repo-Spares t n dir = >>=-Spares (os_stat-Spares dir) (λ info.
      >>=-Spares
        (>>=-Spares (attempt-Spares (os_read_file-Spares (join_path (dir ∷ codes "config" ∷ []))))
          (λ body. pure-Spares (has_section body)))
        (λ initialized.
          >>=-Spares
            (same_tree-Spares (dir_size_mb host dir) (λ w. reader w (codes "-sm" ∷ dir ∷ [])))
            (λ size. pure-Spares (record {
              tenant = t;
              name = n;
              path = dir;
              initialized = initialized;
              disabled = info.mode == disabled_mode;
              size_mb = size;
              created_at = info.mtime;
            }))))

  found-Spares :
      {q : List Text} (t : Text) (e : Entry)
      → Spares q (
          if e.is_dir
          then attempt (stat_repo host t e.name (repo_dir t e.name))
          else pure (err (io not_exist)))
  found-Spares t e =
      if-Spares e.is_dir (attempt-Spares (stat_repo-Spares t e.name (repo_dir t e.name)))
        (pure-Spares (err (io not_exist)))

  stat_entries-Spares :
      {q : List Text} (t : Text) (es : List Entry) → Spares q (stat_entries host t es)
  unfolding stat_entries
  stat_entries-Spares t [] = pure-Spares []
  stat_entries-Spares t (e ∷ es) = >>=-Spares (found-Spares t e) (λ found.
      >>=-Spares (stat_entries-Spares t es) (λ rest. pure-Spares (repo_list host found ++ rest)))

  entries_of-Spares : {q : List Text} (r : Result (List Entry)) → Spares q (entries_of host r)
  entries_of-Spares r = same_tree-Spares (entries_of host r) (λ w. ground arith)

  pub list_repos-Spares : {q : List Text} (t : Text) → Spares q (list_repos host t)
  unfolding list_repos
  list_repos-Spares t = >>-Spares (guard-Spares (valid_name t) invalid_name) (
      >>=-Spares (attempt-Spares (os_read_dir-Spares (join_path (base ∷ t ∷ []))))
        (λ found. >>=-Spares (entries_of-Spares found) (λ es. stat_entries-Spares t es)))

module _ (t n u : Text) (rest : List Text) (ht : valid_name t ≡ true) (hn : valid_name n ≡ true)
    (other : t ≢ u) where
  abbrev q : List Text
  q = tenant_path u rest

  chmod-Spares : (mode : ℕ) → Spares q (os_chmod (repo_dir t n) mode)
  chmod-Spares mode = step-Spares (os_chmod (repo_dir t n) mode) (λ w.
      stat-os_chmod (repo_dir t n) mode w q (Others.named t n u rest ht hn other)
        (Others.not_same t n u rest ht hn other))

  pub disable-Spares : Spares q (disable t n)
  unfolding disable
  disable-Spares =
      >>=-Spares (gets-Spares (λ w. os_exists w (repo_dir t n)))
        (λ there. >>-Spares (guard-Spares there no_repo) (chmod-Spares disabled_mode))

  pub enable-Spares : Spares q (enable t n)
  unfolding enable
  enable-Spares =
      >>=-Spares (gets-Spares (λ w. os_exists w (repo_dir t n)))
        (λ there. >>-Spares (guard-Spares there no_repo) (chmod-Spares enabled_mode))

  tenant_dir-Spares :
      (ids : ℕ × ℕ) → Spares q (ensure_owned_dir (join_path (base ∷ t ∷ [])) ids 0o750)
  unfolding ensure_owned_dir
  tenant_dir-Spares ids =
      let dir = join_path (base ∷ t ∷ []) in
      >>-Spares
        (step-Spares (os_mkdir_all dir 0o750)
          (λ w. stat-os_mkdir_all dir 0o750 w q (Others.not_above_tenant t n u rest ht hn other)))
        (step-Spares (os_chown dir ids.0 ids.1) (λ w.
          stat-os_chown dir ids.0 ids.1 w q (Others.tenant_named t n u rest ht hn other)
            (Others.tenant_not_same t n u rest ht hn other)))

  repo_dir-Spares : (ids : ℕ × ℕ) → Spares q (ensure_owned_dir (repo_dir t n) ids 0o700)
  unfolding ensure_owned_dir
  repo_dir-Spares ids =
      let dir = repo_dir t n in
      >>-Spares
        (step-Spares (os_mkdir_all dir 0o700)
          (λ w. stat-os_mkdir_all dir 0o700 w q (Others.not_above_repo t n u rest ht hn other)))
        (step-Spares (os_chown dir ids.0 ids.1) (λ w.
          stat-os_chown dir ids.0 ids.1 w q (Others.named t n u rest ht hn other)
            (Others.not_same t n u rest ht hn other)))

  valid-Spares : (host : Host) → IsReader host → Spares q (create_repo host t n)
  unfolding create_repo
  valid-Spares host reader = >>-Spares (guard-Spares (valid_name t) invalid_name) (
      >>-Spares (guard-Spares (valid_name n) invalid_name) (
        >>=-Spares (gets-Spares (λ w. is_tenant w t)) (λ registered.
          >>-Spares (guard-Spares registered not_a_tenant) (
            >>=-Spares (gets-Spares (λ w. os_exists w (repo_dir t n))) (λ there.
              >>-Spares (guard-Spares (not there) repo_exists) (
                >>=-Spares (uid_gid-Spares t) (λ ids. >>-Spares (tenant_dir-Spares ids) (
                  >>-Spares (repo_dir-Spares ids)
                    (stat_repo-Spares host reader t n (repo_dir t n))))))))))

-- CreateRepo refuses a name that is not valid.
pub create_repo-Spares :
    (host : Host)
    → IsReader host
    → (t n u : Text) (rest : List Text) → valid_name t ≡ true
    → t ≢ u
    → Spares (tenant_path u rest) (create_repo host t n)
unfolding create_repo
create_repo-Spares host reader t n u rest ht other = elim (Bool-cases (valid_name n)) [
  | inl hn ↦ valid-Spares t n u rest ht hn other host reader
  | inr hn ↦ same_tree-Spares (create_repo host t n) (λ w. rw (ht, hn) refl)
]
