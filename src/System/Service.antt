-- ===== src/System/Service.antt =====
-- internal/system/service.go: systemd units, and the privilege check.
use ngxborg.Base.{Bool, not, ◌&&◌, [], ◌∷◌, ◌==◌}
use ngxborg.Text.{Text, codes, text_eq, trim_space, contains, index}
use ngxborg.Machine.Error.{no_such_unit, not_root}
use ngxborg.Machine.World.{World, M, pure, gets, guard, when, ◌>>=◌, ◌>>◌}
use ngxborg.System.Exec.{Host, Runner, run, output}

module _ (host : Host) where
  unfoldable pub unit_exists : Runner → Text → M Bool
  unfolding output index
  unit_exists r unit = do
    out ←
        output host r (codes "systemctl")
          (codes "list-unit-files" ∷ codes "--no-legend" ∷ unit ∷ [])
    pure (out.success && contains out.stdout unit)

  unfoldable pub is_active : Runner → Text → M Bool
  unfolding output text_eq trim_space
  is_active r unit = do
    out ← output host r (codes "systemctl") (codes "is-active" ∷ unit ∷ [])
    pure (text_eq (trim_space out.stdout) (codes "active"))

  unfoldable pub is_enabled : Runner → Text → M Bool
  unfolding output text_eq trim_space
  is_enabled r unit = do
    out ← output host r (codes "systemctl") (codes "is-enabled" ∷ unit ∷ [])
    pure (text_eq (trim_space out.stdout) (codes "enabled"))

  unfoldable pub daemon_reload : Runner → M (Unit {0})
  unfolding run
  daemon_reload r = run host r (codes "systemctl") (codes "daemon-reload" ∷ [])

  unfoldable pub enable_now : Runner → Text → M (Unit {0})
  unfolding run unit_exists is_active is_enabled
  enable_now r unit = do
    known ← unit_exists r unit
    guard known no_such_unit
    enabled ← is_enabled r unit
    when (not enabled) (run host r (codes "systemctl") (codes "enable" ∷ unit ∷ []))
    active ← is_active r unit
    when (not active) (run host r (codes "systemctl") (codes "start" ∷ unit ∷ []))

  unfoldable pub reload : Runner → Text → M (Unit {0})
  unfolding run unit_exists
  reload r unit = do
    known ← unit_exists r unit
    when known (run host r (codes "systemctl") (codes "reload-or-restart" ∷ unit ∷ []))

  unfoldable pub restart : Runner → Text → M (Unit {0})
  unfolding run
  restart r unit = run host r (codes "systemctl") (codes "restart" ∷ unit ∷ [])

unfoldable pub is_root : World → Bool
is_root w = w.euid == 0

unfoldable pub require_root : M (Unit {0})
require_root = do root ← gets (λ w. w.euid == 0); guard root not_root
