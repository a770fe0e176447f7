-- ===== src/Provision/Setup/DryRun.antt =====
-- A dry run of Setup writes files.
use ngxborg.Base.{◌≡◌, refl, sym, ap, subst, ◌∙◌, true, List, [], ◌∷◌}
use ngxborg.Text.{Text, codes, text_eq, has_prefix, split, split_from}
use ngxborg.Text.FilePath.{components, clean_from, clean_step, pops, dir_of}
use ngxborg.Machine.Fs.{is_above}
use ngxborg.Machine.Error.{ok}
use ngxborg.Machine.World.{World, M, pure, ◌>>◌}
use ngxborg.Machine.World.Inversion.{>>=-ok, in_turn, in_turn-last}
use ngxborg.Machine.Os.{os_read_file, os_mkdir_all}
use ngxborg.Machine.Os.Renames.{temporary, AreApart}
use ngxborg.System.Exec.{Host}
use ngxborg.System.Apt.{apt_update, apt_install}
use ngxborg.Posix.Groups.{ensure_groups}
use ngxborg.Sshaccess.Sshd.{ensure_dual_port}
use ngxborg.Borgrepo.Place.{base, trash_base}
use ngxborg.Provision.Files.{Ctx, preflight, write_if_changed}
use ngxborg.Provision.Files.Written.{write_if_changed-reads}
use ngxborg.Provision.Service.{web_unit_path, web_unit, web_unit_tls_directives, write_web_unit_tls}
use ngxborg.Provision.Setup.{
  SetupOptions, admin_port_of, borg_port_of, base_packages, pam_stack_path, pam_stack_body,
  make_dir, install_self, warn_only, setup,
}

unit_apart : AreApart (components (temporary web_unit_path)) (components web_unit_path)
unfolding web_unit_path components clean_from clean_step pops split split_from has_prefix text_eq
    is_above
unit_apart = record {
  left_named = λ e. cc;
  right_named = λ e. cc;
  not_above = refl;
  not_below = refl;
}

module _ (host : Host) (c : Ctx) (opts : SetupOptions) where
  abbrev unit_text : Text
  unit_text =
      web_unit (codes ":8443") (web_unit_tls_directives opts.tls_mode opts.tls_cert opts.tls_key)

  abbrev steps : List (M (Unit {0}))
  steps =
      preflight c
      ∷ apt_update host c.runner
      ∷ apt_install host c.runner base_packages
      ∷ ensure_groups host c.runner
      ∷ write_if_changed pam_stack_path pam_stack_body 0o644
      ∷ make_dir (dir_of base)
      ∷ make_dir base
      ∷ os_mkdir_all trash_base 0o750
      ∷ os_mkdir_all (codes "/etc/ngxborg") 0o750
      ∷ ensure_dual_port host c.runner (admin_port_of opts) (borg_port_of opts)
      ∷ warn_only (install_self host c)
      ∷ []

  unit_last : M (Unit {0})
  unit_last = write_web_unit_tls host c (codes ":8443") opts.tls_mode opts.tls_cert opts.tls_key

  setup-steps : setup host c opts ≡ in_turn steps unit_last
  unfolding setup unit_last
  setup-steps = refl

  unit_last_dry :
      (w : World)
      → c.runner.dry_run ≡ true
      → unit_last w ≡ (write_if_changed web_unit_path unit_text 0o644 >> pure tt) w
  unfolding unit_last write_web_unit_tls
  unit_last_dry w d = rw d refl

  unit_written :
      (w : World)
      → c.runner.dry_run ≡ true
      → (unit_last w).1 ≡ ok tt
      → os_read_file web_unit_path (unit_last w).0 ≡ ((unit_last w).0, ok unit_text)
  unit_written w d h =
      let write = write_if_changed web_unit_path unit_text 0o644 in
      let dry = unit_last_dry w d in
      let one = >>=-ok write (λ _. pure tt) w (ap (λ r. r.1) (sym dry) ∙ h) in
      subst (λ r. os_read_file web_unit_path r.0 ≡ (r.0, ok unit_text)) (sym (dry ∙ one.2))
        (write_if_changed-reads web_unit_path unit_text 0o644 w unit_apart one.1)

  -- Whenever Setup succeeds in a dry run, the systemd unit of the web UI is afterwards the one
  -- rendered for its options: the dry run writes it as a real run does.
  pub setup_dry_writes :
      (w : World)
      → c.runner.dry_run ≡ true
      → (setup host c opts w).1 ≡ ok tt
      → os_read_file web_unit_path (setup host c opts w).0 ≡ ((setup host c opts w).0, ok unit_text)
  setup_dry_writes w d h =
      let run = ap (λ m. m w) setup-steps in
      let last = in_turn-last steps unit_last w (ap (λ r. r.1) (sym run) ∙ h) in
      subst (λ r. os_read_file web_unit_path r.0 ≡ (r.0, ok unit_text)) (sym (run ∙ last.1))
        (unit_written last.0 d (ap (λ r. r.1) (sym (run ∙ last.1)) ∙ h))
