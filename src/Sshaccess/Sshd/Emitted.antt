-- ===== src/Sshaccess/Sshd/Emitted.antt =====
-- Which commands the parts of EnsureDualPort run.
use ngxborg.Base.{ℕ, ◌≡◌, refl, true, false, not, ◌&&◌, ◌||◌, [], ◌∷◌, ◌++◌}
use ngxborg.Text.{Text, codes, text_eq, contains, trim_space}
use ngxborg.Text.Decimal.{ℤ, itoa}
use ngxborg.Text.FilePath.{dir_of}
use ngxborg.Machine.World.{Invocation}
use ngxborg.Machine.Os.{os_mkdir_all, os_write_file, os_rename}
use ngxborg.Machine.Os.Quiet.{os_mkdir_all-quiet, os_write_file-quiet, os_rename-quiet}
use ngxborg.System.Exec.{Host, Runner, look}
use ngxborg.System.Exec.Traces.{
  Emits, >>=-Emits, >>-Emits, silent-Emits, if-Emits, pure-Emits, gets-Emits, run-Emits,
  output-Emits,
}
use ngxborg.System.Service.{unit_exists, is_active}
use ngxborg.Sshaccess.Files.{atomic_write}
use ngxborg.Sshaccess.Sshd.{allow_firewall_port, disable_socket_activation}

-- A command that is not systemctl's.
abbrev pub IsNoService : Invocation → Type 0
IsNoService inv = text_eq inv.name (codes "systemctl") ≡ false

abbrev pub Any : Invocation → Type 0
Any inv = Unit {0}

pub atomic_write-Emits :
    {P : Invocation → Type 0} (path body : Text) (mode : ℕ) → Emits P (atomic_write path body mode)
unfolding atomic_write
atomic_write-Emits path body mode =
    >>-Emits
      (silent-Emits (os_mkdir_all (dir_of path) 0o755) (os_mkdir_all-quiet (dir_of path) 0o755))
      (>>-Emits
        (silent-Emits (os_write_file (path ++ codes ".tmp") body mode)
          (os_write_file-quiet _ body mode))
        (silent-Emits (os_rename (path ++ codes ".tmp") path) (os_rename-quiet _ path)))

module _ (host : Host) where
  pub allow_firewall_port-Emits :
      (r : Runner) (port : ℤ) → Emits IsNoService (allow_firewall_port host r port)
  unfolding allow_firewall_port text_eq
  allow_firewall_port-Emits r port = >>=-Emits (gets-Emits (look host (codes "ufw"))) (λ there.
      if-Emits (not there) (pure-Emits _) (
        >>=-Emits (output-Emits host r (codes "ufw") (codes "status" ∷ []) refl) (λ out.
          if-Emits
            (not out.success
              || not (contains out.stdout (codes "Status: active"))
              || contains out.stdout (itoa port ++ codes "/tcp"))
            (pure-Emits tt)
            (run-Emits host r (codes "ufw")
              (codes "allow" ∷ (itoa port ++ codes "/tcp") ∷ codes "comment" ∷ codes "ngxborg" ∷ [])
              refl))))

  pub unit_exists-Emits : (r : Runner) (unit : Text) → Emits Any (unit_exists host r unit)
  unfolding unit_exists
  unit_exists-Emits r unit =
      >>=-Emits (output-Emits host r _ _ tt)
        (λ out. pure-Emits (out.success && contains out.stdout unit))

  is_active-Emits : (r : Runner) (unit : Text) → Emits Any (is_active host r unit)
  unfolding is_active
  is_active-Emits r unit =
      >>=-Emits (output-Emits host r _ _ tt)
        (λ out. pure-Emits (text_eq (trim_space out.stdout) (codes "active")))

  pub disable_socket_activation-Emits : (r : Runner) → Emits Any (disable_socket_activation host r)
  unfolding disable_socket_activation
  disable_socket_activation-Emits r = >>=-Emits (unit_exists-Emits r _) (λ known.
      >>=-Emits (if-Emits known (is_active-Emits r _) (pure-Emits false)) (λ active.
        if-Emits (not active) (pure-Emits false) (
          >>-Emits (run-Emits host r _ _ tt) (
            >>-Emits (run-Emits host r _ _ tt)
              (>>-Emits (run-Emits host r _ _ tt) (pure-Emits true))))))
