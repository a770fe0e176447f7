-- ===== src/Tests/RepoRuns.antt =====
-- Repositories.
use ngxborg.Base.{◌≡◌, refl, true, List, [], ◌∷◌, ◌++◌, All, map, none, some, if◌then◌else◌}
use ngxborg.Text.{Text, codes, text_eq, has_prefix, split, split_from, join}
use ngxborg.Text.FilePath.{components, clean, clean_from, clean_step, pops, join_path}
use ngxborg.Machine.Fs.{path_eq, lookup, stat, is_above}
use ngxborg.Machine.Error.{ok}
use ngxborg.Machine.World.{World}
use ngxborg.Borgrepo.Name.{valid_name, is_name_char, is_alnum}
use ngxborg.Borgrepo.Place.{base, repo_dir}
use ngxborg.Borgrepo.Place.Confined.{repo_dir_injective}
use ngxborg.Borgrepo.Repo.{disable, enable}
use ngxborg.Borgrepo.Repo.{Repo, list_repos}
use ngxborg.Borgrepo.Repo.Listed.{AreOf, list_repos_lem}
use ngxborg.Borgrepo.Place.Confined.{base_components, valid_name-IsSegment}
use ngxborg.Machine.Fs.{Entry, children, sort_entries, insert_entry, below}
use ngxborg.Machine.Fs.Found.{AreSegments}
use ngxborg.Machine.Os.{os_read_dir}
use ngxborg.Text.FilePath.Laws.{IsSegment}
use ngxborg.Borgrepo.Repo.Modes.{enable-disable}
use ngxborg.Borgrepo.Trash.{purge}
use ngxborg.Borgrepo.Trash.Erased.{purge_live, purge_traversal}
use ngxborg.Tests.Data.{machine, folder, tree, quiet_host}

alice_valid : valid_name (codes "alice") ≡ true
unfolding valid_name is_name_char is_alnum
alice_valid = refl

bob_valid : valid_name (codes "bob") ≡ true
unfolding valid_name is_name_char is_alnum
bob_valid = refl

db_valid : valid_name (codes "db") ≡ true
unfolding valid_name is_name_char is_alnum
db_valid = refl

bob_db : stat (components (repo_dir (codes "bob") (codes "db"))) machine.fs ≡ some (folder 0o700)
unfolding stat lookup path_eq text_eq components repo_dir join_path join base clean clean_from
    clean_step pops split split_from has_prefix
bob_db = refl

no_alice_db : stat (components (repo_dir (codes "alice") (codes "db"))) machine.fs ≡ none
unfolding stat lookup path_eq text_eq components repo_dir join_path join base clean clean_from
    clean_step pops split split_from has_prefix
no_alice_db = refl

repo_dir_injective_example : (codes "bob" ≡ codes "bob") × (codes "db" ≡ codes "db")
repo_dir_injective_example =
    repo_dir_injective (codes "bob") (codes "db") (codes "bob") (codes "db") bob_valid db_valid
      bob_valid db_valid refl

abbrev db_path : List Text
db_path = components (repo_dir (codes "bob") (codes "db"))

abbrev disabled_machine : World
disabled_machine = (disable (codes "bob") (codes "db") machine).0

enable-disable_example :
    ((enable (codes "bob") (codes "db") disabled_machine).1 ≡ ok tt)
    × (stat db_path (enable (codes "bob") (codes "db") disabled_machine).0.fs
        ≡ stat db_path machine.fs)
enable-disable_example =
    enable-disable (codes "bob") (codes "db") machine (folder 0o700) db_path bob_valid db_valid
      bob_db refl

purge_live_example :
    ((purge (codes "bob") (codes "db") machine).1 ≡ ok tt)
    × (stat db_path (purge (codes "bob") (codes "db") machine).0.fs
        ≡ (if is_above db_path db_path then none else stat db_path machine.fs))
purge_live_example =
    purge_live (codes "bob") (codes "db") machine (folder 0o700) db_path bob_valid db_valid bob_db

purge_traversal_example :
    ((purge (codes "alice") (codes "../bob/db") machine).1 ≡ ok tt)
    × (stat db_path (purge (codes "alice") (codes "../bob/db") machine).0.fs ≡ none)
purge_traversal_example =
    purge_traversal (codes "alice") (codes "bob") (codes "db") machine (folder 0o700) alice_valid
      bob_valid db_valid bob_db

abbrev listed_machine : World
listed_machine = record machine {
  fs = (base_components ++ codes "alice" ∷ [], folder 0o750) ∷ tree;
}

mail_valid : valid_name (codes "mail") ≡ true
unfolding valid_name is_name_char is_alnum
mail_valid = refl

below_base :
    (t : Text) (rest : List Text)
    → IsSegment t
    → All IsSegment rest
    → All IsSegment (base_components ++ t ∷ rest)
unfolding valid_name is_name_char is_alnum
below_base t rest h k = (
  valid_name-IsSegment (codes "var") refl,
  (
    valid_name-IsSegment (codes "lib") refl,
    (
      valid_name-IsSegment (codes "ngxborg") refl,
      (valid_name-IsSegment (codes "repos") refl, (h, k)),
    ),
  ),
)

listed-AreSegments : AreSegments listed_machine.fs
listed-AreSegments =
    let alice = valid_name-IsSegment (codes "alice") alice_valid in
    let mail = valid_name-IsSegment (codes "mail") mail_valid in
    let bob = valid_name-IsSegment (codes "bob") bob_valid in
    let db = valid_name-IsSegment (codes "db") db_valid in
    (
      below_base (codes "alice") [] alice tt,
      (
        below_base (codes "alice") (codes "mail" ∷ []) alice (mail, tt),
        (below_base (codes "bob") (codes "db" ∷ []) bob (db, tt), tt),
      ),
    )

abbrev of_alice : List Entry
of_alice = record { name = codes "mail"; is_dir = true } ∷ []

alice_lists :
    os_read_dir (join_path (base ∷ codes "alice" ∷ [])) listed_machine
    ≡ (listed_machine, ok of_alice)
unfolding os_read_dir stat lookup path_eq text_eq components join_path join base clean clean_from
    clean_step pops split split_from has_prefix children below sort_entries insert_entry
alice_lists = refl

list_repos_lem_example :
    (rs : List Repo) × ((list_repos quiet_host (codes "alice") listed_machine).1 ≡ ok rs)
    × (map (λ r. r.name) rs ≡ codes "mail" ∷ [])
    × AreOf (codes "alice") rs
list_repos_lem_example =
    list_repos_lem quiet_host (λ w args. refl) (codes "alice") listed_machine of_alice alice_valid
      listed-AreSegments alice_lists
