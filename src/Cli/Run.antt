-- ===== src/Cli/Run.antt =====
-- internal/cli/cli.go: which command the arguments name, and the exit code.
pub mod Refused
use ngxborg.Base.{ℕ, Bool, false, ◌||◌, List, [], ◌∷◌, ◌++◌, if◌then◌else◌}
use ngxborg.Text.{Text, codes, text_eq}
use ngxborg.Machine.Error.{Error, Result, ok, err}
use ngxborg.Machine.World.{World}
use ngxborg.System.Exec.{Host}
use ngxborg.Webui.Cert.{Crypto}
use ngxborg.Webui.Listen.{Net}
use ngxborg.Logx.{Log, error, summary}
use ngxborg.Logx.Calls.{Call, apply_all}
use ngxborg.Cli.Input.{Stdin}
use ngxborg.Cli.RepoCommands.{cmd_repo}
use ngxborg.Cli.UserCommands.{cmd_user}
use ngxborg.Cli.SetupCommands.{cmd_setup, cmd_install, cmd_uninstall, cmd_doctor, cmd_web}

unfoldable pub usage : Text
usage =
    codes
      "ngxborg — multi-tenant Borg backup server\n\nSETUP\n  ngxborg setup [--admin-port 22] [--borg-port 2222] [--dry-run]\n      Install packages, create the tenant/admin groups, wire up PAM,\n      configure sshd's dual-port listener. Safe to re-run.\n\n  ngxborg install service [--addr :8443]\n      Enable and start the web UI as a systemd service.\n\n  ngxborg uninstall service\n      Stop and disable the web UI (accounts and repositories untouched).\n\nUSERS\n  ngxborg user create [--admin] <username>\n  ngxborg user delete <username>\n  ngxborg user list\n  ngxborg user passwd [--generate] [username]\n      Set/reset a login password. A tenant with no argument sets their own.\n  ngxborg user disable <username>\n  ngxborg user enable <username>\n      Locks out the web UI and every SSH key on the account at once,\n      without touching the password, keys, or repositories — reversible.\n  ngxborg user key add [--tenant <name>] [--append-only] <repo> <pubkey-or-@file>\n  ngxborg user key list [--tenant <name>]\n  ngxborg user key remove [--tenant <name>] <key-material>\n\nREPOSITORIES\n  ngxborg repo create [--tenant <name>] <repo>\n  ngxborg repo list [--tenant <name>]\n      Admin with no --tenant lists every tenant's repositories.\n  ngxborg repo delete [--tenant <name>] <repo>\n      Soft delete — recoverable until purged.\n  ngxborg repo purge [--tenant <name>] [--yes] <repo>\n      Permanent, irreversible.\n  ngxborg repo disable [--tenant <name>] <repo>\n  ngxborg repo enable [--tenant <name>] <repo>\n      Blocks every SSH key restricted to this repository, without\n      removing the keys or the data — reversible.\n\n  ngxborg doctor\n  ngxborg version\n\nCommands that touch other accounts, sshd, or PAM need root (sudo). A\ntenant runs everything else as themselves — no sudo, scoped automatically\nto their own account.\n\nFlags must come before positional arguments (ngxborg repo create --tenant\nalice mybackup, not the other way around) — a plain consequence of Go's\nstandard flag parser stopping at the first non-flag argument, the same\nconstraint every Go CLI built on it shares.\n"

-- internal/build/build.go; the version is set when a release is built
abbrev pub maintainer : Text
maintainer = codes "Vijay Vishwakarma"

abbrev pub repo_url : Text
repo_url = codes "https://github.com/mevijays/ngxborg"

unfoldable pub version_text : Text → Text
version_text version =
    codes "ngxborg "
    ++ (version
        ++ (codes "\nMaintainer:  "
            ++ (maintainer ++ (codes "\nRepository:  " ++ (repo_url ++ b'\n' ∷ [])))))

-- The process at its end.
pub record Exit : Type 0 where
  pub world : World
  pub log : Log
  pub status : ℕ

-- fmt.Print(s), which writes where logx writes
abbrev printed : Text → Log → Log
printed s log = record log { out = log.out ++ s }

abbrev one_of : Text → List Text → Bool
one_of s [] = false
one_of s (t ∷ ts) = text_eq s t || one_of s ts

module _ (host : Host) (crypto : Crypto) (net : Net) (describe : Error → Text) (version : Text)
    (stdin : Stdin) where
  -- Behind the switch.
  abbrev pub concluded : Log → World × Result (List Call) → Exit
  concluded log (w, ok calls) = record {
    world = w;
    log = summary (apply_all calls log);
    status = 0;
  }
  concluded log (w, err e) = record {
    world = w;
    log = error (describe e) (summary log);
    status = 1;
  }

  abbrev unknown : Text → Text
  unknown name = codes "unknown command \"" ++ (name ++ (codes "\"\n\n" ++ usage))

  unfoldable pub run_command : Text → List Text → World → Log → Exit
  run_command name rest w log =
      if text_eq name (codes "setup")
      then concluded log (cmd_setup host rest w)
      else if text_eq name (codes "install")
      then concluded log (cmd_install host rest w)
      else if text_eq name (codes "uninstall")
      then concluded log (cmd_uninstall host rest w)
      else if text_eq name (codes "user")
      then concluded log (cmd_user host stdin rest w)
      else if text_eq name (codes "repo")
      then concluded log (cmd_repo host stdin rest w)
      else if text_eq name (codes "doctor")
      then concluded log (cmd_doctor host describe rest w)
      else if text_eq name (codes "web")
      then concluded log (cmd_web crypto net rest w)
      else if one_of name (codes "version" ∷ codes "--version" ∷ codes "-v" ∷ [])
      then record { world = w; log = printed (version_text version) log; status = 0 }
      else if one_of name (codes "help" ∷ codes "--help" ∷ codes "-h" ∷ [])
      then record { world = w; log = printed usage log; status = 0 }
      else record {
        world = w;
        log = record log { err_out = log.err_out ++ unknown name };
        status = 1;
      }

  -- cli.Run(ctx, args)
  unfoldable pub run : List Text → World → Log → Exit
  run [] w log = record { world = w; log = printed usage log; status = 1 }
  run (name ∷ rest) w log = run_command name rest w log
