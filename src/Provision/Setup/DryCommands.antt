-- ===== src/Provision/Setup/DryCommands.antt =====
-- The commands of a dry run of Setup.
use ngxborg.Base.{
  ℕ, ◌≡◌, refl, ap, Bool, true, false, not, ◌&&◌, ◌||◌, List, [], ◌∷◌, ◌++◌, if◌then◌else◌, is_nil,
  is_some, ◌==◌,
}
use ngxborg.Text.{Text, codes, text_eq, trim_space}
use ngxborg.Text.FilePath.{dir_of}
use ngxborg.Text.Decimal.{ℤ}
use ngxborg.Machine.Error.{unsupported_os, not_root}
use ngxborg.Machine.World.{World, Invocation, pure}
use ngxborg.Machine.Accounts
use ngxborg.Machine.Os.{os_mkdir_all, os_chmod, os_read_file, os_write_file, os_rename}
use ngxborg.Machine.Os.Quiet.{
  os_mkdir_all-quiet, os_chmod-quiet, os_read_file-quiet, os_write_file-quiet, os_rename-quiet,
}
use ngxborg.System.Exec.{Host}
use ngxborg.System.Exec.Traces.{
  Extends, Emits, silent-Emits, pure-Emits, gets-Emits, guard-Emits, >>=-Emits, >>-Emits, if-Emits,
  when-Emits, attempt-Emits, run-dry-Emits, output-Emits,
}
use ngxborg.System.Service.{require_root, daemon_reload}
use ngxborg.System.Apt.{apt_update, package_installed, installed_are, apt_install, apt_options}
use ngxborg.Posix.Groups.{tenant_group, admin_group, ensure_each, ensure_groups}
use ngxborg.Sshaccess.Sshd.{ensure_dual_port}
use ngxborg.Sshaccess.Sshd.Checked.{dry_same}
use ngxborg.Borgrepo.Place.{base, trash_base}
use ngxborg.Facts.{debian_family}
use ngxborg.Provision.Files.{Ctx, preflight, write_if_changed, holds}
use ngxborg.Provision.Service.{web_unit_path, web_unit, web_unit_tls_directives, write_web_unit_tls}
use ngxborg.Provision.Setup.{
  SetupOptions, admin_port_of, borg_port_of, base_packages, pam_stack_path, pam_stack_body,
  make_dir, install_self, warn_only, setup,
}

-- A question to the package database.
abbrev pub IsQuery : Invocation → Type 0
IsQuery inv = text_eq inv.name (codes "dpkg-query") ≡ true

mkdir-Emits : {P : Invocation → Type 0} (path : Text) (mode : ℕ) → Emits P (os_mkdir_all path mode)
mkdir-Emits path mode = silent-Emits (os_mkdir_all path mode) (os_mkdir_all-quiet path mode)

pub write_if_changed-Emits :
    {P : Invocation → Type 0} (path body : Text) (mode : ℕ)
    → Emits P (write_if_changed path body mode)
unfolding write_if_changed
write_if_changed-Emits path body mode =
    >>=-Emits (attempt-Emits (silent-Emits (os_read_file path) (os_read_file-quiet path)))
      (λ existing. if-Emits (holds body existing) (pure-Emits tt) (
        >>-Emits (mkdir-Emits (dir_of path) 0o755) (
          >>-Emits
            (silent-Emits (os_write_file (path ++ codes ".tmp") body mode)
              (os_write_file-quiet _ body mode))
            (silent-Emits (os_rename (path ++ codes ".tmp") path) (os_rename-quiet _ path)))))

make_dir-Emits : {P : Invocation → Type 0} (dir : Text) → Emits P (make_dir dir)
unfolding make_dir
make_dir-Emits dir =
    >>-Emits (mkdir-Emits dir 0o711) (silent-Emits (os_chmod dir 0o711) (os_chmod-quiet dir 0o711))

preflight-Emits : {P : Invocation → Type 0} (c : Ctx) → Emits P (preflight c)
unfolding preflight require_root
preflight-Emits c =
    >>-Emits (>>=-Emits (gets-Emits (λ w. w.euid == 0)) (λ root. guard-Emits root not_root))
      (guard-Emits (debian_family c.facts.os) unsupported_os)

module _ (host : Host) (c : Ctx) (dry : c.runner.dry_run ≡ true) where
  package_installed-Emits : (pkg : Text) → Emits IsQuery (package_installed host c.runner pkg)
  unfolding package_installed text_eq
  package_installed-Emits pkg =
      >>=-Emits
        (output-Emits host c.runner (codes "dpkg-query")
          (codes "-W" ∷ codes "-f=${db:Status-Status}" ∷ pkg ∷ []) refl)
        (λ out. pure-Emits (out.success && text_eq (trim_space out.stdout) (codes "installed")))

  installed_are-Emits :
      (wanted : Bool) (pkgs : List Text) → Emits IsQuery (installed_are host wanted c.runner pkgs)
  unfolding installed_are
  installed_are-Emits wanted [] = pure-Emits []
  installed_are-Emits wanted (p ∷ pkgs) = >>=-Emits (package_installed-Emits p) (λ there.
      >>=-Emits (installed_are-Emits wanted pkgs) (λ rest.
        pure-Emits (if (there && wanted) || not (there || wanted) then p ∷ rest else rest)))

  apt_install-Emits : (pkgs : List Text) → Emits IsQuery (apt_install host c.runner pkgs)
  unfolding apt_install
  apt_install-Emits pkgs = >>=-Emits (installed_are-Emits false pkgs) (λ missing.
      when-Emits (not (is_nil missing)) (
        run-dry-Emits host c.runner (codes "apt-get") ((codes "install" ∷ apt_options) ++ missing)
          dry))

  ensure_each-Emits : (gs : List Text) → Emits IsQuery (ensure_each host c.runner gs)
  unfolding ensure_each
  ensure_each-Emits [] = pure-Emits tt
  ensure_each-Emits (g ∷ gs) =
      >>=-Emits (gets-Emits (λ w. is_some (Accounts.lookup_group w g))) (λ there.
        >>-Emits
          (when-Emits (not there)
            (run-dry-Emits host c.runner (codes "groupadd") (codes "--system" ∷ g ∷ []) dry))
          (ensure_each-Emits gs))

  install_self-Emits : Emits IsQuery (warn_only (install_self host c))
  unfolding warn_only install_self
  install_self-Emits = silent-Emits (warn_only (install_self host c)) (λ w. rw dry refl)

  ports-Emits : (p q : ℤ) → Emits IsQuery (ensure_dual_port host c.runner p q)
  ports-Emits p q =
      silent-Emits (ensure_dual_port host c.runner p q)
        (λ w. ap (λ v. v.history) (dry_same host c.runner p q w dry))

  reload-Emits : Emits IsQuery (if c.runner.dry_run then pure tt else daemon_reload host c.runner)
  reload-Emits =
      silent-Emits (if c.runner.dry_run then pure tt else daemon_reload host c.runner)
        (λ w. rw dry refl)

  setup-Emits : (opts : SetupOptions) → Emits IsQuery (setup host c opts)
  unfolding setup apt_update ensure_groups write_web_unit_tls
  setup-Emits opts = >>-Emits (preflight-Emits c) (
      >>-Emits
        (run-dry-Emits host c.runner (codes "apt-get") (codes "update" ∷ codes "-qq" ∷ []) dry)
        (>>-Emits (apt_install-Emits base_packages) (
          >>-Emits (ensure_each-Emits (tenant_group ∷ admin_group ∷ [])) (
            >>-Emits (write_if_changed-Emits pam_stack_path pam_stack_body 0o644) (
              >>-Emits (make_dir-Emits (dir_of base)) (
                >>-Emits (make_dir-Emits base) (
                  >>-Emits (mkdir-Emits trash_base 0o750) (
                    >>-Emits (mkdir-Emits (codes "/etc/ngxborg") 0o750) (
                      >>-Emits (ports-Emits (admin_port_of opts) (borg_port_of opts)) (
                        >>-Emits install_self-Emits (
                          >>-Emits
                            (write_if_changed-Emits web_unit_path
                              (web_unit (codes ":8443")
                                (web_unit_tls_directives opts.tls_mode opts.tls_cert opts.tls_key))
                              0o644)
                            reload-Emits)))))))))))

  -- In a dry run, whatever the options are and however it ends, Setup runs no command but questions
  -- to the package database.
  pub setup_dry_commands :
      (opts : SetupOptions) (w : World) → Extends IsQuery w (setup host c opts w).0
  setup_dry_commands opts w = (setup-Emits opts).extends w
