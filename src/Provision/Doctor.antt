-- ===== src/Provision/Doctor.antt =====
-- internal/provision/doctor.go: the health checks.
use ngxborg.Base.{Bool, false, not, List, [], ◌∷◌, ◌++◌, if◌then◌else◌, ltb, is_some}
use ngxborg.Text.{Text, codes}
use ngxborg.Text.Decimal.{ℤ, pos, negsuc, itoa}
use ngxborg.Machine.Fs.{Node}
use ngxborg.Machine.Error.{Error, Result, ok, err}
use ngxborg.Machine.World.{M, pure, gets, attempt, ◌>>=◌}
use ngxborg.Machine.Accounts.{lookup_group}
use ngxborg.Machine.Os.{os_stat, os_exists}
use ngxborg.System.Exec.{Host, Runner, run}
use ngxborg.System.Apt.{package_installed}
use ngxborg.System.Service.{is_active, unit_exists}
use ngxborg.Facts.{format_mb}
use ngxborg.Posix.Groups.{tenant_group, admin_group}
use ngxborg.Sshaccess.Sshd.{borg_port, drop_in_path, ensure_privilege_separation_dir}
use ngxborg.Borgrepo.Place.{base, trash_base}
use ngxborg.Provision.Files.{Ctx}
use ngxborg.Provision.Setup.{pam_stack_path}

pub data Status : Type 0 where
  status_ok status_warn status_fail : Status

-- What a check says; an error is passed on as the text that it prints.
pub data Detail : Type 0 where
  text : Text → Detail
  because : Error → Detail

pub record Check : Type 0 where
  pub name : Text
  pub status : Status
  pub detail : Detail
  pub fix : Detail

abbrev to_setup : Detail
to_setup = text (codes "ngxborg setup")

abbrev nothing : Detail
nothing = text []

abbrev passes : Text → Text → Check
passes name detail = record { name = name; status = status_ok; detail = text detail; fix = nothing }

abbrev fails : Text → Text → Check
fails name detail = record {
  name = name;
  status = status_fail;
  detail = text detail;
  fix = to_setup;
}

unfoldable pub group_check : Text → Text → M Check
group_check label group = do
  there ← gets (λ w. is_some (lookup_group w group))
  pure (
      if there
      then passes label (group ++ codes " exists")
      else fails label (group ++ codes " does not exist"))

abbrev is_directory : Result Node → Bool
is_directory (ok n) = n.is_dir
is_directory (err e) = false

unfoldable pub storage_check : Text → M Check
storage_check dir = do
  info ← attempt (os_stat dir)
  let label = codes "storage: " ++ dir
  pure (if is_directory info then passes label (codes "present") else fails label (codes "missing"))

unfoldable pub disk_checks : ℤ → List Check
disk_checks (negsuc n) = []
disk_checks (pos free) =
    if not (ltb 0 free)
    then []
    else if ltb free 1024
    then record {
      name = codes "disk space";
      status = status_warn;
      detail = text (format_mb (pos free) ++ codes " free");
      fix = text (codes "repositories will fail to accept new archives soon");
    }
      ∷ []
    else passes (codes "disk space") (format_mb (pos free) ++ codes " free") ∷ []

module _ (host : Host) where
  unfoldable pub package_check : Runner → Text → M Check
  package_check r pkg = do
    there ← package_installed host r pkg
    let label = codes "package: " ++ pkg
    pure (if there then passes label (codes "installed") else fails label (codes "not installed"))

  abbrev sshd_result : ℤ → Result (Unit {0}) → Check
  sshd_result port (ok _) = passes (codes "sshd config") (codes "valid; borg port " ++ itoa port)
  sshd_result port (err e) = record {
    name = codes "sshd config";
    status = status_fail;
    detail = text (codes "sshd -t rejects the current configuration");
    fix = text (codes "check " ++ drop_in_path);
  }

  abbrev run_sshd : Ctx → ℤ → Result (Unit {0}) → M Check
  run_sshd c port (err e) = pure (record {
    name = codes "sshd config";
    status = status_fail;
    detail = text (codes "could not create /run/sshd");
    fix = because e;
  })
  run_sshd c port (ok _) = do
    done ← attempt (run host c.runner (codes "sshd") (codes "-t" ∷ []))
    pure (sshd_result port done)

  unfoldable pub sshd_check : Ctx → ℤ → M Check
  sshd_check c port = do made ← attempt ensure_privilege_separation_dir; run_sshd c port made

  abbrev port_check : Ctx → Result ℤ → M Check
  port_check c (ok port) = sshd_check c port
  port_check c (err e) = pure (record {
    name = codes "ssh dual-port";
    status = status_fail;
    detail = because e;
    fix = to_setup;
  })

  abbrev web_warning : Text → Text → Check
  web_warning detail fix = record {
    name = codes "web UI";
    status = status_warn;
    detail = text detail;
    fix = text fix;
  }

  unfoldable pub web_check : Ctx → M Check
  web_check c = do
    active ← is_active host c.runner (codes "ngxborg-web.service")
    if active then pure (passes (codes "web UI") (codes "running")) else (do
      known ← unit_exists host c.runner (codes "ngxborg-web.service")
      pure (
          if known
          then web_warning (codes "installed but not running") (codes "ngxborg install service")
          else web_warning (codes "not installed") (codes "ngxborg install service (optional)")))

  unfoldable pub diagnose : Ctx → M (List Check)
  diagnose c = do
    tenants ← group_check (codes "tenant group") tenant_group
    admins ← group_check (codes "admin group") admin_group
    pam ← gets (λ w. os_exists w pam_stack_path)
    borg ← package_check c.runner (codes "borgbackup")
    ssh ← package_check c.runner (codes "openssh-server")
    found ← attempt borg_port
    port ← port_check c found
    repos ← storage_check base
    trash ← storage_check trash_base
    web ← web_check c
    let stack =
        if pam
        then passes (codes "PAM stack") (pam_stack_path ++ codes " present")
        else fails (codes "PAM stack") (pam_stack_path ++ codes " is missing")
    pure (
        (tenants ∷ admins ∷ stack ∷ borg ∷ ssh ∷ port ∷ repos ∷ trash ∷ web ∷ [])
        ++ disk_checks c.facts.disk_free_mb)
