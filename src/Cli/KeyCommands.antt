-- ===== src/Cli/KeyCommands.antt =====
-- internal/cli/userkey.go
use ngxborg.Base.{Bool, false, not, List, [], ◌∷◌, ◌++◌, if◌then◌else◌, is_nil, map, drop}
use ngxborg.Text.{Text, codes, text_eq, has_prefix, trim_space}
use ngxborg.Machine.Error.{usage, Result, ok, err}
use ngxborg.Machine.World.{M, pure, fail, lift, gets, guard, ◌>>=◌, ◌>>◌}
use ngxborg.Machine.Os.{os_read_file}
use ngxborg.Sshaccess.KeyLine.{KeyEntry}
use ngxborg.Sshaccess.Keys.{add_key, remove_key, list_keys}
use ngxborg.Borgrepo.Place
use ngxborg.Logx.Calls.{Call, section_call, change_call, info_call}
use ngxborg.Cli.Flags.{bool_value, Values, parse, bool_flag}
use ngxborg.Cli.Command.{Command, padded, tenant_flag, one_arg, tenant_of}

abbrev mode_of : Bool → Text
mode_of append_only = if append_only then codes "append-only" else codes "read-write"

abbrev pub add_flags : Values
add_flags = tenant_flag ++ (codes "append-only", bool_value false) ∷ []

abbrev pub two_args : List Text → Result (Text × Text)
two_args (a ∷ b ∷ []) = ok (a, b)
two_args _ = err usage

unfoldable pub read_key_arg : Text → M Text
read_key_arg arg =
    if not (has_prefix arg (codes "@"))
    then pure arg
    else (do body ← os_read_file (drop 1 arg); pure (trim_space body))

unfoldable pub cmd_user_key_add : Command
cmd_user_key_add args = do
  p ← lift (parse add_flags args)
  both ← lift (two_args p.args)
  tenant ← tenant_of p
  pub_key ← read_key_arg both.1
  there ← gets (λ w. Place.exists w tenant both.0)
  guard there usage
  let repo_path = Place.path tenant both.0
  add_key tenant repo_path pub_key (bool_flag (codes "append-only") p)
  pure (
      change_call (
        codes "registered a "
        ++ (mode_of (bool_flag (codes "append-only") p)
            ++ (codes " key for " ++ (tenant ++ (codes ", restricted to " ++ repo_path)))))
      ∷ [])

unfoldable pub key_line : KeyEntry → Call
key_line k = info_call (
    padded 10 (mode_of k.append_only)
    ++ (b' '
        ∷ (padded 40 k.repo_path
            ++ (b' ' ∷ (if is_nil k.comment then codes "(no comment)" else k.comment)))))

unfoldable pub key_lines : Text → List KeyEntry → List Call
key_lines tenant [] = info_call (tenant ++ codes " has no registered backup keys yet") ∷ []
key_lines tenant (k ∷ ks) = section_call (codes "Keys for " ++ tenant) ∷ map key_line (k ∷ ks)

unfoldable pub cmd_user_key_list : Command
cmd_user_key_list args = do
  p ← lift (parse tenant_flag args)
  tenant ← tenant_of p
  keys ← list_keys tenant
  pure (key_lines tenant keys)

unfoldable pub cmd_user_key_remove : Command
cmd_user_key_remove args = do
  p ← lift (parse tenant_flag args)
  material ← lift (one_arg p.args)
  tenant ← tenant_of p
  remove_key tenant material
  pure (change_call (codes "removed key from " ++ tenant) ∷ [])

abbrev dispatch : Text → Command
dispatch sub rest =
    if text_eq sub (codes "add")
    then cmd_user_key_add rest
    else if text_eq sub (codes "list")
    then cmd_user_key_list rest
    else if text_eq sub (codes "remove")
    then cmd_user_key_remove rest
    else fail usage

unfoldable pub cmd_user_key : Command
cmd_user_key [] = fail usage
cmd_user_key (sub ∷ rest) = dispatch sub rest
