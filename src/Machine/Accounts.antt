-- ===== src/Machine/Accounts.antt =====
-- What the program uses of the package `os/user`: the account database that the machine's name
-- service answers from.
use ngxborg.Base.{List, [], ◌∷◌, Option, if◌then◌else◌, any, find_if}
use ngxborg.Text.{Text, text_eq}
use ngxborg.Machine.World.{World, User, Group}

-- user.Lookup(name)
unfoldable pub lookup_user : World → Text → Option User
unfolding text_eq
lookup_user w name = find_if (λ u. text_eq u.name name) w.users

-- user.LookupGroup(name)
unfoldable pub lookup_group : World → Text → Option Group
unfolding text_eq
lookup_group w name = find_if (λ g. text_eq g.name name) w.groups

-- The groups that list a user.
unfoldable pub listed_gids : Text → List Group → List Text
unfolding text_eq
listed_gids name [] = []
listed_gids name (g ∷ gs) =
    let rest = listed_gids name gs in
    if any (λ m. text_eq m name) g.members then g.gid ∷ rest else rest

-- u.GroupIds()
unfoldable pub group_ids : World → User → List Text
unfolding listed_gids
group_ids w u = u.gid ∷ listed_gids u.name w.groups
