-- ===== src/System/Exec.antt =====
-- internal/system/exec.go: running external commands. What a command does to the machine is not
-- the program's code: it is the parameter `exec` of `Host`. What the program logs is left out.
pub mod Traces
use ngxborg.Base.{Bool, true, false, List, [], ◌∷◌, if◌then◌else◌, Option}
use ngxborg.Text.{Text, trim_space}
use ngxborg.Machine.Error.{command_failed, Result, ok, err}
use ngxborg.Machine.World.{World, Invocation, M}

-- How a command ended: exit status 0 within the time limit, and what it wrote.
pub record Outcome : Type 0 where
  pub success : Bool
  pub stdout : Text

pub record Host : Type 0 where
  pub exec : World → Invocation → World × Outcome
  -- whether a command is on PATH
  pub look_path : World → Text → Bool
  -- os.Executable and filepath.EvalSymlinks: the running program's own file
  pub executable : World → Option Text

pub record Runner : Type 0 where
  pub dry_run : Bool

-- The zero value, `system.Runner{}`.
abbrev pub runner : Runner
runner = record { dry_run = false }

module _ (host : Host) where
  -- Every command that is run goes through here, and is recorded.
  unfoldable pub capture : Invocation → World → World × Outcome
  capture inv w =
      let done = host.exec w inv in (record done.0 { history = inv ∷ w.history }, done.1)

  abbrev pub exit_error : Bool → Result (Unit {0})
  exit_error true = ok tt
  exit_error false = err command_failed

  unfoldable pub run : Runner → Text → List Text → M (Unit {0})
  unfolding capture
  run r name args w =
      if r.dry_run
      then (w, ok tt)
      else let done = capture (record { name = name; args = args; stdin = [] }) w in
        (done.0, exit_error done.1.success)

  -- The trimmed output, whether or not the command failed. It runs under DryRun too.
  unfoldable pub output : Runner → Text → List Text → M Outcome
  unfolding capture trim_space
  output r name args w =
      let done = capture (record { name = name; args = args; stdin = [] }) w in
      (done.0, ok (record done.1 { stdout = trim_space done.1.stdout }))

  unfoldable pub run_stdin : Runner → Text → Text → List Text → M (Unit {0})
  unfolding capture
  run_stdin r stdin name args w =
      if r.dry_run
      then (w, ok tt)
      else let done = capture (record { name = name; args = args; stdin = stdin }) w in
        (done.0, exit_error done.1.success)

  unfoldable pub try_run : Runner → Text → List Text → M (Unit {0})
  unfolding run
  try_run r name args w = ((run r name args w).0, ok tt)

  unfoldable pub look : Text → World → Bool
  look name w = host.look_path w name
