-- ===== src/Provision/Service.antt =====
-- internal/provision/service.go: the web UI's systemd unit.
use ngxborg.Base.{not, [], ◌∷◌, ◌++◌, if◌then◌else◌, is_nil}
use ngxborg.Text.{Text, codes, text_eq}
use ngxborg.Machine.World.{M, pure, gets, when, ◌>>=◌, ◌>>◌}
use ngxborg.Machine.Os.{os_exists}
use ngxborg.System.Exec.{Host, try_run}
use ngxborg.System.Service.{daemon_reload, enable_now}
use ngxborg.Provision.Files.{Ctx, preflight, write_if_changed, require_setup}

unfoldable pub web_unit_path : Text
web_unit_path = codes "/etc/systemd/system/ngxborg-web.service"

-- fmt.Sprintf(webUnitTemplate, addr, tlsFlags)
unfoldable pub web_unit : Text → Text → Text
web_unit addr flags =
    codes
      "# Managed by ngxborg — do not edit by hand; changes are overwritten by\n# `ngxborg setup`.\n[Unit]\nDescription=ngxborg web UI\nAfter=network.target ssh.service\n\n[Service]\nType=simple\nExecStart=/usr/local/bin/ngxborg web --addr "
    ++ (addr
        ++ (b' '
            ∷ (flags
                ++ codes
                    "\nRestart=on-failure\nRestartSec=2\n\n[Install]\nWantedBy=multi-user.target\n")))

unfoldable pub web_unit_tls_directives : Text → Text → Text → Text
web_unit_tls_directives tls_mode tls_cert tls_key =
    if text_eq tls_mode (codes "custom")
    then codes "--tls-cert " ++ (tls_cert ++ (codes " --tls-key " ++ tls_key))
    else if text_eq tls_mode (codes "none")
    then codes "--insecure"
    else []

module _ (host : Host) where
  unfoldable pub write_web_unit_tls : Ctx → Text → Text → Text → Text → M (Unit {0})
  write_web_unit_tls c addr tls_mode tls_cert tls_key = do
    write_if_changed web_unit_path
        (web_unit addr (web_unit_tls_directives tls_mode tls_cert tls_key)) 0o644
    if c.runner.dry_run then pure tt else daemon_reload host c.runner

  unfoldable pub write_web_unit : Ctx → M (Unit {0})
  write_web_unit c = write_web_unit_tls c (codes ":8443") [] [] []

  unfoldable pub write_web_unit_addr : Ctx → Text → M (Unit {0})
  write_web_unit_addr c addr = write_web_unit_tls c addr [] [] []

  unfoldable pub install_service_with_tls : Ctx → Text → Text → Text → Text → M (Unit {0})
  install_service_with_tls c addr tls_mode tls_cert tls_key = do
    preflight c
    require_setup
    there ← gets (λ w. os_exists w web_unit_path)
    if not (is_nil addr)
        then write_web_unit_tls c addr tls_mode tls_cert tls_key
        else when (not there) (write_web_unit c)
    enable_now host c.runner (codes "ngxborg-web.service")

  unfoldable pub install_service : Ctx → Text → M (Unit {0})
  install_service c addr = install_service_with_tls c addr [] [] []

  unfoldable pub remove_service : Ctx → M (Unit {0})
  remove_service c = when (not c.runner.dry_run) (
      try_run host c.runner (codes "systemctl")
        (codes "disable" ∷ codes "--now" ∷ codes "ngxborg-web.service" ∷ []))
