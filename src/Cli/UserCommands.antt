-- ===== src/Cli/UserCommands.antt =====
-- internal/cli/user.go
use ngxborg.Base.{
  ℕ, Bool, true, false, not, ◌||◌, List, [], ◌∷◌, ◌++◌, if◌then◌else◌, is_nil, length,
}
use ngxborg.Text.{Text, codes, text_eq}
use ngxborg.Machine.Error.{usage, own_account_only, Result, ok, err}
use ngxborg.Machine.World.{M, pure, fail, lift, gets, guard, attempt, ◌>>=◌, ◌>>◌}
use ngxborg.System.Exec.{Host, runner}
use ngxborg.System.Service.{require_root}
use ngxborg.System.Secret.{password}
use ngxborg.Posix.Groups.{is_admin}
use ngxborg.Posix.Members.{list_tenants}
use ngxborg.Posix.Shadow.{is_disabled}
use ngxborg.Posix.Account
use ngxborg.Posix.Account.{create_user, delete_user, set_password}
use ngxborg.Sshaccess.KeyLine.{KeyEntry}
use ngxborg.Sshaccess.Keys.{list_keys, format_count}
use ngxborg.Logx.Calls.{Call, section_call, change_call, info_call}
use ngxborg.Cli.Flags.{bool_value, Values, parse, bool_flag}
use ngxborg.Cli.Identity.{resolve_identity}
use ngxborg.Cli.Input.{Stdin, read_password}
use ngxborg.Cli.KeyCommands.{cmd_user_key}
use ngxborg.Cli.Command.{Command, padded, one_arg}

abbrev role_of : Bool → Text
role_of admin = if admin then codes "admin" else codes "tenant"

abbrev admin_flag : Values
admin_flag = (codes "admin", bool_value false) ∷ []

abbrev generate_flag : Values
generate_flag = (codes "generate", bool_value false) ∷ []

abbrev key_count : Result (List KeyEntry) → ℕ
key_count (ok ks) = length ks
key_count (err e) = 0

abbrev status_of : Result Bool → Text
status_of (ok true) = codes " [disabled]"
status_of _ = []

-- The loop of cmdUserList.
unfoldable pub user_lines : List Text → M (List Call)
user_lines [] = pure []
user_lines (name ∷ names) = do
  admin ← gets (λ w. is_admin w name)
  found ← attempt (list_keys name)
  off ← attempt (is_disabled name)
  rest ← user_lines names
  pure (
      info_call (
        padded 20 name
        ++ (b' '
            ∷ (padded 8 (role_of admin)
                ++ (b' ' ∷ (padded 10 (format_count (key_count found)) ++ status_of off)))))
      ∷ rest)

abbrev all_lines : List Text → M (List Call)
all_lines [] = pure (info_call (codes "no ngxborg accounts yet — see `ngxborg user create`") ∷ [])
all_lines (name ∷ names) = do
  lines ← user_lines (name ∷ names)
  pure (section_call (codes "Accounts") ∷ lines)

unfoldable pub cmd_user_list : Command
cmd_user_list args = do require_root; names ← list_tenants; all_lines names

-- fs.Arg(0) if there is one
abbrev first_or : Text → List Text → Text
first_or default [] = default
first_or default (a ∷ _) = a

module _ (host : Host) where
  unfoldable pub cmd_user_create : Command
  cmd_user_create args = do
    p ← lift (parse admin_flag args)
    username ← lift (one_arg p.args)
    require_root
    create_user host runner username (bool_flag (codes "admin") p)
    pure (
        change_call (
          codes "created "
          ++ (role_of (bool_flag (codes "admin") p)
              ++ (codes " account "
                  ++ (username
                      ++ (codes " (locked — run `ngxborg user passwd "
                          ++ (username ++ codes "` to set a password)"))))))
        ∷ [])

  unfoldable pub cmd_user_delete : Command
  cmd_user_delete args = do
    username ← lift (one_arg args)
    require_root
    delete_user host runner username
    pure (
        change_call (
          codes "deleted account "
          ++ (username
              ++ codes " (its repositories were not touched — see `ngxborg repo delete/purge`)"))
        ∷ [])

  unfoldable pub cmd_user_disable : Command
  cmd_user_disable args = do
    username ← lift (one_arg args)
    require_root
    Account.disable host runner username
    pure (
        change_call (
          codes "disabled "
          ++ (username
              ++ (codes
                    " — the web UI and every SSH key on their account are locked out until `ngxborg user enable "
                  ++ (username ++ codes "`"))))
        ∷ [])

  unfoldable pub cmd_user_enable : Command
  cmd_user_enable args = do
    username ← lift (one_arg args)
    require_root
    Account.enable host runner username
    pure (change_call (codes "enabled " ++ username) ∷ [])

  -- The generated password is printed besides, on the error output and not through logx.
  unfoldable pub cmd_user_passwd : Stdin → Command
  cmd_user_passwd stdin args = do
    p ← lift (parse generate_flag args)
    id ← resolve_identity
    let username = first_or id.username p.args
    guard (not (is_nil username)) usage
    guard (id.admin || text_eq username id.username) own_account_only
    secret ← (if bool_flag (codes "generate") p then password 20 else read_password host stdin)
    set_password host runner username secret
    pure (change_call (codes "password set for " ++ username) ∷ [])

  abbrev dispatch : Stdin → Text → Command
  dispatch stdin sub rest =
      if text_eq sub (codes "create")
      then cmd_user_create rest
      else if text_eq sub (codes "delete")
      then cmd_user_delete rest
      else if text_eq sub (codes "list")
      then cmd_user_list rest
      else if text_eq sub (codes "passwd")
      then cmd_user_passwd stdin rest
      else if text_eq sub (codes "disable")
      then cmd_user_disable rest
      else if text_eq sub (codes "enable")
      then cmd_user_enable rest
      else if text_eq sub (codes "key")
      then cmd_user_key rest
      else fail usage

  unfoldable pub cmd_user : Stdin → Command
  cmd_user stdin [] = fail usage
  cmd_user stdin (sub ∷ rest) = dispatch stdin sub rest
