-- ===== src/Tests/SetupRuns.antt =====
-- Files that setup and the web UI write.
use ngxborg.Base.{◌≡◌, refl, true, []}
use ngxborg.Text.{join, codes, text_eq, has_prefix, split, split_from}
use ngxborg.Text.Decimal.{pos}
use ngxborg.Text.FilePath.{dir_of, components, clean_from, clean_step, pops}
use ngxborg.Machine.Error.{ok}
use ngxborg.Machine.World.{World}
use ngxborg.Machine.Os.{
  os_read_file, os_mkdir_all, mkdir_from, mkdir_step, os_write_file, os_rename, os_chmod,
}
use ngxborg.Machine.Fs.{is_above, stat, lookup, path_eq, put, below, children, move, prune}
use ngxborg.System.Secret.{rand_int}
use ngxborg.System.Service.{require_root}
use ngxborg.System.Apt.{apt_update, apt_install}
use ngxborg.Posix.Groups.{ensure_groups, ensure_each, exists}
use ngxborg.Sshaccess.Sshd.{ensure_dual_port, int_eq}
use ngxborg.Borgrepo.Place.{base, trash_base}
use ngxborg.Machine.Os.Renames.{temporary, AreApart}
use ngxborg.System.Exec.{run}
use ngxborg.Facts.{Facts, debian_family}
use ngxborg.Provision.Files.{preflight, Ctx, write_if_changed}
use ngxborg.Provision.Files.Written.{write_if_changed_again}
use ngxborg.Provision.Service.{web_unit_path, web_unit, web_unit_tls_directives, write_web_unit_tls}
use ngxborg.Provision.Setup.{
  warn_only, install_self, admin_port_of, borg_port_of, make_dir, SetupOptions, pam_stack_path,
  pam_stack_body, setup,
}
use ngxborg.Provision.Setup.DryRun.{setup_dry_writes}
use ngxborg.Webui.Cert.{
  Pair, ensure_cert, load_pair, make_cert, generate_self_signed, key_pair, cert_path, key_path,
  cert_dir,
}
use ngxborg.Webui.Cert.Kept.{ensure_cert_again}
use ngxborg.Tests.Data.{machine, quiet_host, certifier}

pam_apart : AreApart (components (temporary pam_stack_path)) (components pam_stack_path)
unfolding pam_stack_path components clean_from clean_step pops split split_from has_prefix text_eq
    is_above
pam_apart = record {
  left_named = λ e. cc;
  right_named = λ e. cc;
  not_above = refl;
  not_below = refl;
}

abbrev with_pam : World
with_pam = (write_if_changed pam_stack_path pam_stack_body 0o644 machine).0

write_if_changed_again_example :
    write_if_changed pam_stack_path pam_stack_body 0o644 with_pam ≡ (with_pam, ok tt)
unfolding write_if_changed pam_stack_path pam_stack_body components clean_from clean_step pops split
    split_from has_prefix text_eq is_above stat lookup path_eq os_mkdir_all mkdir_from mkdir_step
    put os_read_file os_write_file os_rename below children move prune dir_of join
write_if_changed_again_example =
    write_if_changed_again pam_stack_path pam_stack_body 0o644 machine pam_apart refl

abbrev made_pair : Pair
made_pair = record { cert = codes "c"; key = codes "k" }

abbrev certified : World
certified = (ensure_cert certifier machine).0

ensure_cert_again_example : ensure_cert certifier certified ≡ (certified, ok made_pair)
unfolding ensure_cert load_pair make_cert generate_self_signed key_pair rand_int cert_path key_path
    cert_dir components clean_from clean_step pops split split_from has_prefix text_eq is_above stat
    lookup path_eq os_mkdir_all mkdir_from mkdir_step put os_read_file os_write_file os_rename below
    children move prune dir_of join
ensure_cert_again_example = ensure_cert_again certifier made_pair machine refl

abbrev debian : Facts
debian = record {
  os = record {
    id = codes "debian";
    id_like = [];
    version_id = codes "12";
    pretty_name = codes "Debian 12";
  };
  disk_free_mb = pos 1000;
}

abbrev pub dry : Ctx
dry = record { runner = record { dry_run = true }; facts = debian }

abbrev pub options : SetupOptions
options = record {
  admin_port = pos 22;
  borg_port = pos 2222;
  tls_mode = codes "none";
  tls_cert = [];
  tls_key = [];
}

abbrev dry_result : World
dry_result = (setup quiet_host dry options machine).0

setup_succeeds : (setup quiet_host dry options machine).1 ≡ ok tt
unfolding setup warn_only install_self write_if_changed preflight require_root debian_family
    apt_update apt_install ensure_groups ensure_each exists run make_dir base trash_base os_chmod
    ensure_dual_port admin_port_of borg_port_of int_eq write_web_unit_tls web_unit_path
    pam_stack_path pam_stack_body components clean_from clean_step pops split split_from has_prefix
    text_eq is_above stat lookup path_eq os_mkdir_all mkdir_from mkdir_step put os_read_file
    os_write_file os_rename below children move prune dir_of join
setup_succeeds = refl

setup_dry_writes_example :
    os_read_file web_unit_path dry_result
    ≡ (dry_result, ok (web_unit (codes ":8443") (web_unit_tls_directives (codes "none") [] [])))
setup_dry_writes_example = setup_dry_writes quiet_host dry options machine refl setup_succeeds
