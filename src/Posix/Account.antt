-- ===== src/Posix/Account.antt =====
-- internal/posix/posix.go: accounts are made, changed and removed by external commands.
pub mod Commands
use ngxborg.Base.{
  ℕ, ◌+◌, ◌*◌, ◌-◌, ◌%◌, ◌^◌, Bool, true, false, not, ◌&&◌, ◌||◌, List, [], ◌∷◌, ◌++◌, Option, none,
  some, if◌then◌else◌, is_nil, leb, ltb, ◌==◌,
}
use ngxborg.Text.{Text, codes, is_space, contains_char}
use ngxborg.Text.Decimal.{scan_digits}
use ngxborg.Machine.Error.{
  Error, account_exists, no_such_account, bad_password_chars, lookup_user, bad_uid, bad_gid, Result,
  ok, err,
}
use ngxborg.Machine.World.{World, User, M, pure, gets, guard, when, or_fail, continue, ◌>>=◌, ◌>>◌}
use ngxborg.Machine.Accounts
use ngxborg.System.Exec.{Host, Runner, run, run_stdin, try_run}
use ngxborg.Posix.Groups.{tenant_group, admin_group, exists}

unfoldable pub home_dir : Text → M Text
unfolding Accounts.lookup_user
home_dir username = do
  found ← gets (λ w. Accounts.lookup_user w username)
  u ← or_fail lookup_user found
  pure u.home

abbrev below_2_64 : Option ℕ → Option ℕ
below_2_64 none = none
below_2_64 (some n) = if ltb n (2 ^ 64) then some n else none

-- fmt.Sscanf(s, "%d", &n) for an unsigned n.
unfoldable pub scan_uint : Text → Option ℕ
unfolding scan_digits is_space
scan_uint [] = none
scan_uint (c ∷ s) =
    let rest = scan_uint s in
    if is_space c && not (c == b'\n') then rest else below_2_64 (scan_digits none (c ∷ s))

unfoldable pub uid_gid : Text → M (ℕ × ℕ)
unfolding Accounts.lookup_user scan_uint
uid_gid username = do
  found ← gets (λ w. Accounts.lookup_user w username)
  u ← or_fail lookup_user found
  uid ← or_fail bad_uid (scan_uint u.uid)
  gid ← or_fail bad_gid (scan_uint u.gid)
  pure (uid % 2 ^ 32, gid % 2 ^ 32)

module _ (host : Host) where
  unfoldable pub create_user : Runner → Text → Bool → M (Unit {0})
  unfolding exists run try_run
  create_user r username admin = do
    taken ← gets (λ w. exists w username)
    guard (not taken) account_exists
    run host r (codes "useradd") (
        codes "--create-home"
        ∷ codes "--shell"
        ∷ codes "/bin/bash"
        ∷ codes "--comment"
        ∷ codes "ngxborg tenant"
        ∷ username
        ∷ [])
    run host r (codes "usermod") (codes "-aG" ∷ tenant_group ∷ username ∷ [])
    when admin (run host r (codes "usermod") (codes "-aG" ∷ admin_group ∷ username ∷ []))
    try_run host r (codes "passwd") (codes "--lock" ∷ username ∷ [])

  unfoldable pub delete_user : Runner → Text → M (Unit {0})
  unfolding exists run
  delete_user r username = do
    there ← gets (λ w. exists w username)
    guard there no_such_account
    run host r (codes "userdel") (codes "-r" ∷ username ∷ [])

  unfoldable pub set_password : Runner → Text → Text → M (Unit {0})
  unfolding exists run_stdin contains_char
  set_password r username password = do
    there ← gets (λ w. exists w username)
    guard there no_such_account
    guard (not (contains_char b'\n' password || contains_char b':' password)) bad_password_chars
    run_stdin host r (username ++ (b':' ∷ (password ++ b'\n' ∷ []))) (codes "chpasswd") []

  unfoldable pub disable : Runner → Text → M (Unit {0})
  unfolding exists run
  disable r username = do
    there ← gets (λ w. exists w username)
    guard there no_such_account
    run host r (codes "usermod") (codes "--expiredate" ∷ codes "1" ∷ username ∷ [])

  unfoldable pub enable : Runner → Text → M (Unit {0})
  unfolding exists run
  enable r username = do
    there ← gets (λ w. exists w username)
    guard there no_such_account
    run host r (codes "usermod") (codes "--expiredate" ∷ codes "" ∷ username ∷ [])
