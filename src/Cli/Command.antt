-- ===== src/Cli/Command.antt =====
-- What the commands of internal/cli share.
use ngxborg.Base.{ℕ, ◌-◌, List, [], ◌∷◌, ◌++◌, length}
use ngxborg.Text.{Text, codes}
use ngxborg.Machine.Error.{usage, Result, ok, err}
use ngxborg.Machine.World.{M, lift, ◌>>=◌}
use ngxborg.Logx.{repeat}
use ngxborg.Logx.Calls.{Call}
use ngxborg.Cli.Flags.{text_value, Values, Parsed, text_flag}
use ngxborg.Cli.Identity.{resolve_identity, scope_tenant}

-- A command, from its arguments to what it prints.
abbrev pub Command : Type 0
Command = List Text → M (List Call)

-- fmt.Sprintf("%-*s", width, s)
unfoldable pub padded : ℕ → Text → Text
padded width s = s ++ repeat (codes " ") (width - length s)

abbrev pub tenant_flag : Values
tenant_flag = (codes "tenant", text_value []) ∷ []

-- `if fs.NArg() != 1 { return errUsage(…) }`, and fs.Arg(0)
abbrev pub one_arg : List Text → Result Text
one_arg (a ∷ []) = ok a
one_arg _ = err usage

-- The account that a command acts on, by --tenant.
unfoldable pub tenant_of : Parsed → M Text
tenant_of p = do id ← resolve_identity; lift (scope_tenant id (text_flag (codes "tenant") p))
