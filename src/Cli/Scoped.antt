-- ===== src/Cli/Scoped.antt =====
-- For whom the commands on repositories and keys act.
pub mod Lines
use ngxborg.Base.{
  ◌≡◌, ◌≢◌, refl, Bool, true, false, List, [], ◌∷◌, some, ◌⊎◌, arith, Bool-cases, inl, inr,
}
use ngxborg.Text.{Text, codes, text_eq}
use ngxborg.Text.Search.{text_eq_ne}
use ngxborg.Machine.Error.{Error, own_account_only, not_registered, Result, ok, err}
use ngxborg.Machine.World.{World, User, M}
use ngxborg.System.Exec.{Host}
use ngxborg.Posix.Groups.{is_tenant}
use ngxborg.Cli.Flags.{Values, Parsed, parse, text_flag}
use ngxborg.Cli.Identity.{Identity, current_user, resolve_identity, scope_tenant}
use ngxborg.Cli.Input.{Stdin}
use ngxborg.Cli.Command.{Command, tenant_flag, tenant_of}
use ngxborg.Cli.RepoCommands.{
  purge_flags, cmd_repo_create, cmd_repo_list, cmd_repo_delete, cmd_repo_purge, cmd_repo_disable,
  cmd_repo_enable,
}
use ngxborg.Cli.KeyCommands.{add_flags, cmd_user_key_add, cmd_user_key_list, cmd_user_key_remove}

-- The commands that take --tenant.
pub data Scoped : Type 0 where
  repo_create repo_list repo_delete repo_purge repo_disable repo_enable : Scoped
  key_add key_list key_remove : Scoped

unfoldable pub flags_of : Scoped → Values
flags_of repo_purge = purge_flags
flags_of key_add = add_flags
flags_of _ = tenant_flag

abbrev pub is_err {ℓ} : {A : Type ℓ} → Result A → Bool
is_err (ok a) = false
is_err (err e) = true

-- The command stops with an error and has changed nothing.
abbrev pub Refuses {ℓ} : {A : Type ℓ} → M A → World → Type 0
Refuses m w = ((m w).0 ≡ w) × (is_err (m w).1 ≡ true)

refuses :
    (name flag : Text)
    → flag ≢ []
    → flag ≢ name
    → scope_tenant (record { admin = false; username = name }) flag ≡ err own_account_only
unfolding scope_tenant
refuses name [] h k = absurd (h refl)
refuses name (c ∷ flag) h k = ground (arith, text_eq_ne (c ∷ flag) name k)

module _ (host : Host) (stdin : Stdin) where
  unfoldable pub command_of : Scoped → Command
  command_of repo_create = cmd_repo_create host
  command_of repo_list = cmd_repo_list host
  command_of repo_delete = cmd_repo_delete
  command_of repo_purge = cmd_repo_purge stdin
  command_of repo_disable = cmd_repo_disable
  command_of repo_enable = cmd_repo_enable
  command_of key_add = cmd_user_key_add
  command_of key_list = cmd_user_key_list
  command_of key_remove = cmd_user_key_remove

  -- The account of the process is not known, or is a tenant's that names another one.
  abbrev IsDenied : Identity → Parsed → Error → World → Type 0
  IsDenied id p e w =
      (resolve_identity w ≡ (w, err e))
      ⊎ ((resolve_identity w ≡ (w, ok id))
          × (id.admin ≡ false)
          × (scope_tenant id (text_flag (codes "tenant") p) ≡ err e))

  denied_refused :
      (c : Scoped) (args : List Text) (w : World) (p : Parsed) (e : Error) (id : Identity)
      → parse (flags_of c) args ≡ ok p
      → IsDenied id p e w
      → Refuses (command_of c args) w
  unfolding tenant_of command_of flags_of cmd_repo_create cmd_repo_list cmd_repo_delete
      cmd_repo_purge cmd_repo_disable cmd_repo_enable cmd_user_key_add cmd_user_key_list
      cmd_user_key_remove
  denied_refused repo_create args w p e id h t = ground arith
  denied_refused repo_list args w p e id h t = ground arith
  denied_refused repo_delete args w p e id h t = ground arith
  denied_refused repo_purge args w p e id h t = ground arith
  denied_refused repo_disable args w p e id h t = ground arith
  denied_refused repo_enable args w p e id h t = ground arith
  denied_refused key_add args w p e id h t = ground arith
  denied_refused key_list args w p e id h t = ground arith
  denied_refused key_remove args w p e id h t = ground arith

  scoped_stranger :
      (c : Scoped) (args : List Text) (w : World) (p : Parsed) (u : User)
      → parse (flags_of c) args ≡ ok p
      → current_user w ≡ some u
      → text_eq u.uid (codes "0") ≡ false
      → is_tenant w u.name ≡ false
      → Refuses (command_of c args) w
  unfolding resolve_identity
  scoped_stranger c args w p u h e root t =
      denied_refused c args w p not_registered (record { admin = false; username = [] }) h
        (inl (ground arith))

  scoped_other :
      (c : Scoped) (args : List Text) (w : World) (p : Parsed) (u : User)
      → parse (flags_of c) args ≡ ok p
      → current_user w ≡ some u
      → text_eq u.uid (codes "0") ≡ false
      → is_tenant w u.name ≡ true
      → text_flag (codes "tenant") p ≢ []
      → text_flag (codes "tenant") p ≢ u.name
      → Refuses (command_of c args) w
  unfolding resolve_identity
  scoped_other c args w p u h e root t named other =
      denied_refused c args w p own_account_only (record { admin = false; username = u.name }) h
        (inr (ground arith, refl, refuses u.name (text_flag (codes "tenant") p) named other))

  -- A process that is not root's is refused by every command that takes --tenant and whose flags can
  -- be read, if its account is no tenant, or if it names another account there; and nothing changes.
  pub scoped_refused :
      (c : Scoped) (args : List Text) (w : World) (p : Parsed) (u : User)
      → parse (flags_of c) args ≡ ok p
      → current_user w ≡ some u
      → text_eq u.uid (codes "0") ≡ false
      → (is_tenant w u.name ≡ false)
        ⊎ ((text_flag (codes "tenant") p ≢ []) × (text_flag (codes "tenant") p ≢ u.name))
      → Refuses (command_of c args) w
  scoped_refused c args w p u h e root (inl t) = scoped_stranger c args w p u h e root t
  scoped_refused c args w p u h e root (inr (named, other)) =
      elim (Bool-cases (is_tenant w u.name)) [
        | inl t ↦ scoped_other c args w p u h e root t named other
        | inr t ↦ scoped_stranger c args w p u h e root t
      ]
