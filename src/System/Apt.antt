-- ===== src/System/Apt.antt =====
-- internal/system/apt.go: packages.
pub mod Commands
use ngxborg.Base.{Bool, true, false, not, ◌&&◌, ◌||◌, List, [], ◌∷◌, ◌++◌, if◌then◌else◌, is_nil}
use ngxborg.Text.{Text, codes, text_eq, trim_space, contains, index}
use ngxborg.Machine.Error.{Result, ok, err}
use ngxborg.Machine.World.{M, pure, gets, when, attempt, ◌>>=◌}
use ngxborg.System.Exec.{Host, Runner, run, output, try_run, look}

abbrev pub apt_options : List Text
apt_options =
    codes "-y"
    ∷ codes "-o"
    ∷ codes "Dpkg::Options::=--force-confold"
    ∷ codes "-o"
    ∷ codes "Dpkg::Options::=--force-confdef"
    ∷ codes "--no-install-recommends"
    ∷ []

abbrev succeeded {ℓ} : {A : Type ℓ} → Result A → Bool
succeeded (ok a) = true
succeeded (err e) = false

module _ (host : Host) where
  unfoldable pub apt_update : Runner → M (Unit {0})
  unfolding run
  apt_update r = run host r (codes "apt-get") (codes "update" ∷ codes "-qq" ∷ [])

  unfoldable pub package_installed : Runner → Text → M Bool
  unfolding output text_eq trim_space
  package_installed r pkg = do
    out ←
        output host r (codes "dpkg-query") (codes "-W" ∷ codes "-f=${db:Status-Status}" ∷ pkg ∷ [])
    pure (out.success && text_eq (trim_space out.stdout) (codes "installed"))

  unfoldable pub package_available : Runner → Text → M Bool
  unfolding output index trim_space
  package_available r pkg = do
    out ← output host r (codes "apt-cache") (codes "policy" ∷ pkg ∷ [])
    pure (
        out.success
        && not (is_nil (trim_space out.stdout))
        && not (contains out.stdout (codes "Candidate: (none)")))

  -- The packages of the list that are installed, or those that are not.
  unfoldable pub installed_are : Bool → Runner → List Text → M (List Text)
  unfolding package_installed
  installed_are wanted r [] = pure []
  installed_are wanted r (p ∷ pkgs) = do
    there ← package_installed r p
    rest ← installed_are wanted r pkgs
    pure (if (there && wanted) || not (there || wanted) then p ∷ rest else rest)

  unfoldable pub apt_install : Runner → List Text → M (Unit {0})
  unfolding installed_are run
  apt_install r pkgs = do
    missing ← installed_are false r pkgs
    when (not (is_nil missing))
        (run host r (codes "apt-get") ((codes "install" ∷ apt_options) ++ missing))

  -- One package of AptInstallOptional, and whether it counts as installed.
  unfoldable pub install_optional : Runner → Text → M Bool
  unfolding package_installed package_available apt_install
  install_optional r p = do
    there ← package_installed r p
    if there then pure true else (do
      available ← package_available r p
      if not available
          then pure false
          else (do done ← attempt (apt_install r (p ∷ [])); pure (succeeded done)))

  unfoldable pub apt_install_optional : Runner → List Text → M (List Text)
  unfolding install_optional
  apt_install_optional r [] = pure []
  apt_install_optional r (p ∷ pkgs) = do
    done ← install_optional r p
    rest ← apt_install_optional r pkgs
    pure (if done then p ∷ rest else rest)

  unfoldable pub apt_remove : Runner → List Text → M (Unit {0})
  unfolding installed_are run
  apt_remove r pkgs = do
    present ← installed_are true r pkgs
    when (not (is_nil present))
        (run host r (codes "apt-get") ((codes "remove" ∷ codes "--purge" ∷ apt_options) ++ present))

  unfoldable pub apt_autoremove : Runner → M (Unit {0})
  unfolding try_run
  apt_autoremove r =
      try_run host r (codes "apt-get") (codes "autoremove" ∷ codes "-y" ∷ codes "--purge" ∷ [])

  -- The loop of HoldingLock, which returns at the first lock that is held.
  unfoldable pub any_held : Runner → List Text → M Bool
  unfolding output
  any_held r [] = pure false
  any_held r (lock ∷ locks) = do
    out ← output host r (codes "fuser") (codes "-s" ∷ lock ∷ [])
    if out.success then pure true else any_held r locks

  unfoldable pub holding_lock : Runner → M Bool
  unfolding any_held look
  holding_lock r = do
    there ← gets (look host (codes "fuser"))
    if there
        then any_held r (codes "/var/lib/dpkg/lock-frontend" ∷ codes "/var/lib/apt/lists/lock" ∷ [])
        else pure false
