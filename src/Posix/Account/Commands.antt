-- ===== src/Posix/Account/Commands.antt =====
-- Which commands the account operations run, and when they run none.
use ngxborg.Base.{◌≡◌, ◌⊎◌, Bool, true, false, ◌||◌, List, [], ◌∷◌, ◌++◌, arith, if◌then◌else◌}
use ngxborg.Text.{Text, codes, contains_char}
use ngxborg.Machine.Error.{no_such_account, bad_password_chars, ok, err}
use ngxborg.Machine.World.{World, Invocation}
use ngxborg.System.Exec.{Host, Runner, run, run_stdin, try_run, capture}
use ngxborg.Posix.Groups.{tenant_group, admin_group, exists}
use ngxborg.Posix.Account.{create_user, delete_user, set_password, disable, enable}

abbrev pub command : Text → List Text → Text → Invocation
command name args stdin = record { name = name; args = args; stdin = stdin }

abbrev pub dry : Runner
dry = record { dry_run = true }

abbrev pub live : Runner
live = record { dry_run = false }

abbrev pub useradd : Text → Invocation
useradd username =
    command (codes "useradd")
      (codes "--create-home"
        ∷ codes "--shell"
        ∷ codes "/bin/bash"
        ∷ codes "--comment"
        ∷ codes "ngxborg tenant"
        ∷ username
        ∷ [])
      []

-- usermod -aG group username
abbrev pub join_group : Text → Text → Invocation
join_group group username = command (codes "usermod") (codes "-aG" ∷ group ∷ username ∷ []) []

abbrev pub lock_password : Text → Invocation
lock_password username = command (codes "passwd") (codes "--lock" ∷ username ∷ []) []

module _ (host : Host) where
  -- In a dry run no operation on accounts changes the machine or runs a command.
  pub account_dry :
      (username password : Text) (admin : Bool) (w : World)
      → ((create_user host dry username admin w).0 ≡ w)
        × ((delete_user host dry username w).0 ≡ w)
        × ((set_password host dry username password w).0 ≡ w)
        × ((disable host dry username w).0 ≡ w)
        × ((enable host dry username w).0 ≡ w)
  unfolding create_user delete_user set_password disable enable run run_stdin try_run
  account_dry username password admin w =
      (ground arith, ground arith, ground arith, ground arith, ground arith)

  -- Outside a dry run, SetPassword refuses an unknown account, and a password with a line feed or a colon, without
  -- a change to the machine.
  pub set_password_refused :
      (username password : Text) (w : World)
      → (exists w username ≡ false)
        ⊎ ((contains_char b'\n' password || contains_char b':' password) ≡ true)
      → (set_password host live username password w
          ≡ (w, err (if exists w username then bad_password_chars else no_such_account)))
  unfolding set_password
  set_password_refused username password w h = ground arith

  -- Whenever CreateUser succeeds outside a dry run, the account
  -- was not there, and the commands that ran are `useradd`, the one that adds it to the tenants,
  -- for an admin and no one else the one that adds it to the admins, and the one that locks
  -- its password, in this order.
  pub create_user_commands :
      (username : Text) (admin : Bool) (w : World)
      → (create_user host live username admin w).1 ≡ ok tt
      → (exists w username ≡ false)
        × ((create_user host live username admin w).0.history
            ≡ lock_password username
              ∷ ((if admin then join_group admin_group username ∷ [] else [])
                  ++ join_group tenant_group username ∷ useradd username ∷ w.history))
  unfolding create_user run try_run capture
  create_user_commands username true w done = ground arith
  create_user_commands username false w done = ground arith
