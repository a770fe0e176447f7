-- ===== src/Sshaccess/Sshd.antt =====
-- internal/sshaccess/sshd.go: the sshd drop-in with its two ports.
pub mod Ports
pub mod Emitted
pub mod Checked
use ngxborg.Base.{
  ℕ, Bool, true, false, not, ◌&&◌, ◌||◌, List, [], ◌∷◌, ◌++◌, Option, none, some, if◌then◌else◌,
  ◌==◌, drop, length,
}
use ngxborg.Text.{Text, codes, has_prefix, trim_space, split, contains, index}
use ngxborg.Text.Decimal.{ℤ, pos, negsuc, itoa, atoi}
use ngxborg.Machine.Error.{Error, ports_equal, no_two_ports, Result, ok, err}
use ngxborg.Machine.World.{World, M, pure, gets, guard, when, or_fail, continue, ◌>>=◌, ◌>>◌}
use ngxborg.Machine.Os.{os_mkdir_all, os_read_file}
use ngxborg.System.Exec.{Host, Runner, Outcome, run, output, look}
use ngxborg.System.Service.{unit_exists, is_active}
use ngxborg.Sshaccess.Files.{atomic_write}

unfoldable pub drop_in_path : Text
drop_in_path = codes "/etc/ssh/sshd_config.d/60-ngxborg.conf"

unfoldable pub template_head : Text
template_head =
    codes
      "# Managed by ngxborg — do not edit by hand; changes are overwritten by\n# `ngxborg setup`. Put local overrides in a separate file instead.\n#\n# Two ports, one sshd: administrative SSH stays on the standard port,\n# completely unrestricted; borg backup traffic uses a second, dedicated\n# port that this Match block hardens. There is no separate \"borg server\"\n# process to run on its own port — borg has none; every connection here\n# still goes through the very same sshd, it is just told to behave more\n# defensively when it arrives on the borg port specifically."

unfoldable pub template_tail : Text
template_tail =
    codes
      "    PasswordAuthentication no\n    KbdInteractiveAuthentication no\n    PermitTTY no\n    X11Forwarding no\n    AllowTcpForwarding no\n    AllowAgentForwarding no\n    AllowStreamLocalForwarding no\n    Banner none\n"

abbrev pub port_line : ℤ → Text
port_line port = codes "Port " ++ itoa port

abbrev pub match_line : ℤ → Text
match_line port = codes "Match LocalPort " ++ itoa port

-- fmt.Sprintf(dropInTemplate, adminPort, borgPort, borgPort)
unfoldable pub drop_in : ℤ → ℤ → Text
drop_in admin_port borg_port =
    template_head
    ++ (b'\n'
        ∷ (port_line admin_port
            ++ (b'\n'
                ∷ (port_line borg_port
                    ++ (b'\n' ∷ b'\n' ∷ (match_line borg_port ++ (b'\n' ∷ template_tail)))))))

unfoldable pub int_eq : ℤ → ℤ → Bool
int_eq (pos a) (pos b) = a == b
int_eq (negsuc a) (negsuc b) = a == b
int_eq _ _ = false

unfoldable pub ensure_privilege_separation_dir : M (Unit {0})
ensure_privilege_separation_dir = os_mkdir_all (codes "/run/sshd") 0o755

module _ (host : Host) where
  unfoldable pub allow_firewall_port : Runner → ℤ → M (Unit {0})
  allow_firewall_port r port = do
    there ← gets (look host (codes "ufw"))
    if not there then pure tt else (do
      out ← output host r (codes "ufw") (codes "status" ∷ [])
      let rule = itoa port ++ codes "/tcp"
      if not out.success
            || not (contains out.stdout (codes "Status: active"))
            || contains out.stdout rule
          then pure tt
          else run host r (codes "ufw")
              (codes "allow" ∷ rule ∷ codes "comment" ∷ codes "ngxborg" ∷ []))

  unfoldable pub disable_socket_activation : Runner → M Bool
  disable_socket_activation r = do
    known ← unit_exists host r (codes "ssh.socket")
    active ← (if known then is_active host r (codes "ssh.socket") else pure false)
    if not active then pure false else (do
      run host r (codes "systemctl") (codes "disable" ∷ codes "--now" ∷ codes "ssh.socket" ∷ [])
      run host r (codes "systemctl") (codes "enable" ∷ codes "ssh.service" ∷ [])
      run host r (codes "systemctl") (codes "restart" ∷ codes "ssh.service" ∷ [])
      pure true)

  unfoldable pub ensure_dual_port : Runner → ℤ → ℤ → M (Unit {0})
  ensure_dual_port r admin_port borg_port = do
    guard (not (int_eq admin_port borg_port)) ports_equal
    if r.dry_run then pure tt else (do
      ensure_privilege_separation_dir
      atomic_write drop_in_path (drop_in admin_port borg_port) 0o644
      allow_firewall_port r borg_port
      run host r (codes "sshd") (codes "-t" ∷ [])
      disable_socket_activation r
      known ← unit_exists host r (codes "ssh.service")
      run host r (codes "systemctl")
          (codes "restart" ∷ (if known then codes "ssh.service" else codes "sshd.service") ∷ []))

abbrev some_port : Option ℤ → List ℤ
some_port none = []
some_port (some p) = p ∷ []

-- What one line of the drop-in declares.
unfoldable pub port_in : Text → List ℤ
port_in raw =
    let line = trim_space raw in
    if not (has_prefix line (codes "Port "))
    then []
    else some_port (atoi (trim_space (drop (length (codes "Port")) line)))

unfoldable pub ports_of : List Text → List ℤ
ports_of [] = []
ports_of (l ∷ ls) = port_in l ++ ports_of ls

abbrev pub second : List ℤ → Option ℤ
second (_ ∷ p ∷ _) = some p
second _ = none

unfoldable pub borg_port : M ℤ
borg_port = do
  raw ← os_read_file drop_in_path
  or_fail no_two_ports (second (ports_of (split b'\n' raw)))
