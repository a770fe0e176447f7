-- ===== src/Posix/Groups.antt =====
-- internal/posix/posix.go, group.go: who is a tenant and who is an admin.
use ngxborg.Base.{
  Bool, true, false, not, ◌&&◌, List, [], ◌∷◌, Option, none, some, if◌then◌else◌, any, is_some,
}
use ngxborg.Text.{Text, codes, text_eq}
use ngxborg.Machine.World.{World, User, Group, M, pure, gets, when, ◌>>=◌, ◌>>◌}
use ngxborg.Machine.Accounts
use ngxborg.Machine.Accounts.{lookup_user, group_ids}
use ngxborg.System.Exec.{Host, Runner, run}

abbrev pub tenant_group : Text
tenant_group = codes "ngxborg"

abbrev pub admin_group : Text
admin_group = codes "ngxborg-admin"

-- posix.Exists(name)
unfoldable pub exists : World → Text → Bool
unfolding lookup_user
exists w name = is_some (lookup_user w name)

abbrev gid_in : World → Option User → Option Group → Bool
gid_in w none g = false
gid_in w (some u) none = false
gid_in w (some u) (some g) =
    if text_eq u.gid g.gid then true else any (λ id. text_eq id g.gid) (group_ids w u)

-- posix.InGroup(username, group)
unfoldable pub in_group : World → Text → Text → Bool
unfolding lookup_user Accounts.lookup_group group_ids text_eq
in_group w username group = gid_in w (lookup_user w username) (Accounts.lookup_group w group)

unfoldable pub is_tenant : World → Text → Bool
unfolding exists in_group
is_tenant w username = exists w username && in_group w username tenant_group

unfoldable pub is_admin : World → Text → Bool
unfolding exists in_group
is_admin w username = exists w username && in_group w username admin_group

module _ (host : Host) where
  -- The loop of EnsureGroups.
  unfoldable pub ensure_each : Runner → List Text → M (Unit {0})
  unfolding run Accounts.lookup_group
  ensure_each r [] = pure tt
  ensure_each r (g ∷ gs) = do
    there ← gets (λ w. is_some (Accounts.lookup_group w g))
    when (not there) (run host r (codes "groupadd") (codes "--system" ∷ g ∷ []))
    ensure_each r gs

  unfoldable pub ensure_groups : Runner → M (Unit {0})
  unfolding ensure_each
  ensure_groups r = ensure_each r (tenant_group ∷ admin_group ∷ [])
