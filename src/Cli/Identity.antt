-- ===== src/Cli/Identity.antt =====
-- internal/cli/identity.go: for whom a command acts.
use ngxborg.Base.{Bool, true, false, not, ◌&&◌, Option, none, some, if◌then◌else◌, is_nil, find_if}
use ngxborg.Text.{Text, codes, text_eq}
use ngxborg.Text.Decimal.{ℤ, pos, itoa, atoi}
use ngxborg.Machine.Error.{
  no_current_user, not_registered, own_account_only, tenant_flag_required, usage, Result, ok, err,
}
use ngxborg.Machine.World.{World, User, M, pure, gets, guard, or_fail, ◌>>=◌, ◌>>◌}
use ngxborg.Posix.Groups.{is_tenant}

pub record Identity : Type 0 where
  pub admin : Bool
  -- empty for an admin
  pub username : Text

-- user.Current(): the account of the process. No program changes its user id here, so the
-- effective one is the real one.
unfoldable pub current_user : World → Option User
current_user w = find_if (λ u. text_eq u.uid (itoa (pos w.euid))) w.users

abbrev root_identity : Identity
root_identity = record { admin = true; username = codes "" }

unfoldable pub resolve_identity : M Identity
resolve_identity = do
  found ← gets current_user
  u ← or_fail no_current_user found
  if text_eq u.uid (codes "0") then pure root_identity else (do
    registered ← gets (λ w. is_tenant w u.name)
    guard registered not_registered
    pure (record { admin = false; username = u.name }))

unfoldable pub scope_tenant : Identity → Text → Result Text
scope_tenant id flag_value =
    if not id.admin
    then if not (is_nil flag_value) && not (text_eq flag_value id.username)
      then err own_account_only
      else ok id.username
    else if is_nil flag_value
    then err tenant_flag_required
    else ok flag_value

abbrev number_or_usage : Option ℤ → Result ℤ
number_or_usage none = err usage
number_or_usage (some n) = ok n

-- mustAtoi(field, s)
unfoldable pub must_atoi : Text → Result ℤ
must_atoi s = number_or_usage (atoi s)
