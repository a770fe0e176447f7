-- ===== src/Cli/Run/Refused.antt =====
-- The exit of a process that a tenant starts for another account.
use ngxborg.Base.{◌≡◌, ◌≢◌, refl, true, false, List, [], ◌∷◌, ◌++◌, some, All, arith}
use ngxborg.Text.{Text, codes, text_eq}
use ngxborg.Machine.Error.{Error, Result, ok, err}
use ngxborg.Machine.World.{World, User}
use ngxborg.System.Exec.{Host}
use ngxborg.Webui.Cert.{Crypto}
use ngxborg.Webui.Listen.{Net}
use ngxborg.Logx.{Log, error, summary}
use ngxborg.Logx.Calls.{Call}
use ngxborg.Cli.Flags.Rendered.{Setting, rendered, IsFor, IsEnd}
use ngxborg.Cli.Identity.{current_user}
use ngxborg.Cli.Input.{Stdin}
use ngxborg.Cli.RepoCommands.{cmd_repo}
use ngxborg.Cli.KeyCommands.{cmd_user_key}
use ngxborg.Cli.UserCommands.{cmd_user}
use ngxborg.Cli.Scoped.{
  repo_create, repo_list, repo_delete, repo_purge, repo_disable, repo_enable, key_add, key_list,
  key_remove, Scoped, flags_of, command_of, is_err,
}
use ngxborg.Cli.Scoped.Lines.{naming, other_refused}
use ngxborg.Cli.Run.{Exit, concluded, run_command, run}

-- The words in front of a command's own arguments.
abbrev pub words : Scoped → List Text
words repo_create = codes "repo" ∷ codes "create" ∷ []
words repo_list = codes "repo" ∷ codes "list" ∷ []
words repo_delete = codes "repo" ∷ codes "delete" ∷ []
words repo_purge = codes "repo" ∷ codes "purge" ∷ []
words repo_disable = codes "repo" ∷ codes "disable" ∷ []
words repo_enable = codes "repo" ∷ codes "enable" ∷ []
words key_add = codes "user" ∷ codes "key" ∷ codes "add" ∷ []
words key_list = codes "user" ∷ codes "key" ∷ codes "list" ∷ []
words key_remove = codes "user" ∷ codes "key" ∷ codes "remove" ∷ []

module _ (host : Host) (crypto : Crypto) (net : Net) (describe : Error → Text) (version : Text)
    (stdin : Stdin) where
  abbrev exit_of : List Text → World → Log → Exit
  exit_of = run host crypto net describe version stdin

  run-words :
      (c : Scoped) (args : List Text) (w : World) (log : Log)
      → exit_of (words c ++ args) w log
        ≡ concluded host crypto net describe version stdin log (command_of host stdin c args w)
  unfolding run run_command cmd_repo cmd_user cmd_user_key command_of text_eq
  run-words repo_create args w log = refl
  run-words repo_list args w log = refl
  run-words repo_delete args w log = refl
  run-words repo_purge args w log = refl
  run-words repo_disable args w log = refl
  run-words repo_enable args w log = refl
  run-words key_add args w log = refl
  run-words key_list args w log = refl
  run-words key_remove args w log = refl

  -- Status 1, the machine as it was, and on the error output the warnings and the error's text.
  abbrev pub IsFailed : World → Log → Exit → Type 0
  IsFailed w log x =
      (x.world ≡ w) × (x.status ≡ 1) × ((e : Error) × (x.log ≡ error (describe e) (summary log)))

  concluded-IsFailed :
      (w v : World) (log : Log) (r : Result (List Call))
      → v ≡ w
      → is_err r ≡ true
      → IsFailed w log (concluded host crypto net describe version stdin log (v, r))
  concluded-IsFailed w v log (ok calls) h e = absurd (ground (arith, e))
  concluded-IsFailed w v log (err x) h e = (h, refl, (x, refl))

  -- A process that is not root's and is started with the words of a command that takes --tenant, any
  -- settings of the command's flags, `--tenant other` and any arguments, where `other` is not its
  -- account's name nor empty, ends with status 1, with an error on the error output, and the machine
  -- as it was.
  pub run_other_refused :
      (c : Scoped) (ss : List Setting) (other : Text) (rest : List Text) (w : World) (log : Log)
      (u : User)
      → All (IsFor (flags_of c)) ss
      → IsEnd rest
      → current_user w ≡ some u
      → text_eq u.uid (codes "0") ≡ false
      → other ≢ []
      → other ≢ u.name
      → IsFailed w log (exit_of (words c ++ (rendered (naming other ss) ++ rest)) w log)
  run_other_refused c ss other rest w log u h e me root named differs =
      let args = rendered (naming other ss) ++ rest in
      let refused = other_refused host stdin c ss other rest w u h e me root named differs in
      rw (run-words c args w log) (
        concluded-IsFailed w (command_of host stdin c args w).0 log
          (command_of host stdin c args w).1 refused.0 refused.1)
