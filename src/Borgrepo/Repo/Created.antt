-- ===== src/Borgrepo/Repo/Created.antt =====
-- For whom CreateRepo makes a repository.
use ngxborg.Base.{◌≡◌, true, false, not, ◌&&◌, arith, if◌then◌else◌}
use ngxborg.Text.{Text}
use ngxborg.Machine.Error.{invalid_name, not_a_tenant, repo_exists, ok, err}
use ngxborg.Machine.World.{World}
use ngxborg.Machine.Os.{os_exists}
use ngxborg.System.Exec.{Host}
use ngxborg.Posix.Groups.{is_tenant}
use ngxborg.Borgrepo.Name.{valid_name}
use ngxborg.Borgrepo.Place.{repo_dir}
use ngxborg.Borgrepo.Repo.{Repo, create_repo, stat_repo}

module _ (host : Host) where
  -- CreateRepo refuses, without a change to the machine, names that are not valid, an account that
  -- is no tenant and a repository that is there, and says which of these it was.
  pub create_repo_refused :
      (t n : Text) (w : World)
      → (valid_name t && valid_name n && is_tenant w t && not (os_exists w (repo_dir t n))) ≡ false
      → create_repo host t n w ≡ (
        w,
        err (
            if valid_name t && valid_name n
            then if is_tenant w t then repo_exists else not_a_tenant
            else invalid_name),
      )
  unfolding create_repo
  create_repo_refused t n w h = ground arith

  -- Whenever CreateRepo succeeds, both names are valid, the account is a tenant, nothing stood at
  -- the repository's path, and the answer names tenant, name and path.
  pub create_repo_ok :
      (t n : Text) (w : World) (r : Repo)
      → (create_repo host t n w).1 ≡ ok r
      → (valid_name t ≡ true)
        × (valid_name n ≡ true)
        × (is_tenant w t ≡ true)
        × (os_exists w (repo_dir t n) ≡ false)
        × (r.tenant ≡ t)
        × (r.name ≡ n)
        × (r.path ≡ repo_dir t n)
  unfolding create_repo stat_repo
  create_repo_ok t n w r h = ground arith
