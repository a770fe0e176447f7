-- ===== src/Provision/Setup.antt =====
-- internal/provision/setup.go: a bare machine made a backup server.
pub mod DryRun
pub mod DryCommands
use ngxborg.Base.{ℕ, zero, suc, List, [], ◌∷◌, ◌++◌, Option, if◌then◌else◌}
use ngxborg.Text.{Text, codes, text_eq}
use ngxborg.Text.Decimal.{ℤ, pos, negsuc}
use ngxborg.Text.FilePath.{dir_of}
use ngxborg.Machine.World.{M, pure, gets, attempt, or_fail, ◌>>=◌, ◌>>◌}
use ngxborg.Machine.Error.{no_executable}
use ngxborg.Machine.Os.{os_mkdir_all, os_chmod, os_read_file, os_write_file, os_rename}
use ngxborg.System.Exec.{Host}
use ngxborg.System.Apt.{apt_update, apt_install}
use ngxborg.Posix.Groups.{ensure_groups}
use ngxborg.Sshaccess.Sshd.{ensure_dual_port}
use ngxborg.Borgrepo.Place.{base, trash_base}
use ngxborg.Provision.Files.{Ctx, preflight, write_if_changed}
use ngxborg.Provision.Service.{write_web_unit_tls}

abbrev pub base_packages : List Text
base_packages = codes "borgbackup" ∷ codes "openssh-server" ∷ codes "libpam-modules" ∷ []

unfoldable pub pam_stack_path : Text
pam_stack_path = codes "/etc/pam.d/ngxborg"

unfoldable pub pam_stack_body : Text
pam_stack_body =
    codes
      "# Managed by ngxborg — do not edit by hand; changes are overwritten by\n# `ngxborg setup`.\n#\n# Checks a real POSIX account's password and confirms the account itself\n# is currently usable (not locked, not expired) — nothing more.\nauth       required     pam_unix.so\naccount    required     pam_unix.so\n"

pub record SetupOptions : Type 0 where
  pub admin_port : ℤ
  pub borg_port : ℤ
  pub tls_mode : Text
  pub tls_cert : Text
  pub tls_key : Text

abbrev or_default : ℤ → ℕ → ℤ
or_default (pos zero) d = pos d
or_default (pos (suc n)) d = pos (suc n)
or_default (negsuc n) d = negsuc n

unfoldable pub admin_port_of : SetupOptions → ℤ
admin_port_of o = or_default o.admin_port 22

unfoldable pub borg_port_of : SetupOptions → ℤ
borg_port_of o = or_default o.borg_port 2222

unfoldable pub make_dir : Text → M (Unit {0})
make_dir dir = do os_mkdir_all dir 0o711; os_chmod dir 0o711

unfoldable pub self_path : Text
self_path = codes "/usr/local/bin/ngxborg"

-- The copy of the file `self` that installSelf makes.
unfoldable pub install_copy : Text → M (Unit {0})
install_copy self = do
  body ← os_read_file self
  os_write_file (self_path ++ codes ".tmp") body 0o755
  os_rename (self_path ++ codes ".tmp") self_path

unfoldable pub install_self : Host → Ctx → M (Unit {0})
install_self host c = if c.runner.dry_run then pure tt else (do
  found ← gets host.executable
  self ← or_fail no_executable found
  if text_eq self self_path then pure tt else install_copy self)

-- A failure is only a warning.
unfoldable pub warn_only : M (Unit {0}) → M (Unit {0})
warn_only m = do attempt m; pure tt

unfoldable pub setup : Host → Ctx → SetupOptions → M (Unit {0})
setup host c opts = do
  preflight c
  apt_update host c.runner
  apt_install host c.runner base_packages
  ensure_groups host c.runner
  write_if_changed pam_stack_path pam_stack_body 0o644
  make_dir (dir_of base)
  make_dir base
  os_mkdir_all trash_base 0o750
  os_mkdir_all (codes "/etc/ngxborg") 0o750
  ensure_dual_port host c.runner (admin_port_of opts) (borg_port_of opts)
  warn_only (install_self host c)
  write_web_unit_tls host c (codes ":8443") opts.tls_mode opts.tls_cert opts.tls_key
