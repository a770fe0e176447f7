-- ===== src/Tests/TrashRuns.antt =====
-- A repository on its way to the trash, and a file of keys written and read.
use ngxborg.Base.{◌≡◌, refl, true, false, List, [], ◌∷◌, ◌++◌, none, All}
use ngxborg.Text.{
  Text, codes, text_lt, text_eq, has_prefix, split, split_from, join, contains_char, trim_space,
  trim_left, trim_right, is_space, byte_len,
}
use ngxborg.Text.Lines.{drop_cr}
use ngxborg.Text.FilePath.{components, clean, clean_from, clean_step, pops, join_path}
use ngxborg.Machine.Fs.{
  Entry, children, below, sort_entries, insert_entry, path_eq, lookup, stat, put,
}
use ngxborg.Machine.Error.{ok}
use ngxborg.Machine.World.{World}
use ngxborg.Machine.Os.{os_exists, os_read_dir, os_mkdir_all, mkdir_from, mkdir_step}
use ngxborg.Borgrepo.Name.{valid_name, is_name_char, is_alnum}
use ngxborg.Borgrepo.Place.{base, trash_base, repo_dir}
use ngxborg.Borgrepo.Stamp.{stamp, date_of_days}
use ngxborg.Borgrepo.Trash.{delete, purge, separator, trash_name, latest_in}
use ngxborg.Borgrepo.Trash.Located.{trash_components}
use ngxborg.Borgrepo.Trash.Deleted.{delete_live}
use ngxborg.Sshaccess.Files.ReadBack.{IsStored}
use ngxborg.Borgrepo.Trash.Confused.{purge_other_name}
use ngxborg.Tests.Data.{machine, folder, tree}

abbrev with_trash : World
with_trash = record machine {
  fs =
      (codes "var" ∷ [], folder 0o755)
      ∷ (codes "var" ∷ codes "lib" ∷ [], folder 0o755)
      ∷ (codes "var" ∷ codes "lib" ∷ codes "ngxborg" ∷ [], folder 0o711)
      ∷ (trash_components, folder 0o700)
      ∷ tree;
}

abbrev moved : World
moved = (delete (codes "bob") (codes "db") with_trash).0

delete_live_example :
    ((delete (codes "bob") (codes "db") with_trash).1 ≡ ok tt)
    × (stat (trash_components ++ trash_name (codes "bob") (codes "db") 100 ∷ []) moved.fs
        ≡ stat (components (repo_dir (codes "bob") (codes "db")) ++ []) with_trash.fs)
    × (stat (components (repo_dir (codes "bob") (codes "db")) ++ []) moved.fs ≡ none)
unfolding stat lookup path_eq text_eq components repo_dir join_path join base trash_base clean
    clean_from clean_step pops split split_from has_prefix valid_name is_name_char is_alnum
    os_mkdir_all mkdir_from mkdir_step put trash_name stamp date_of_days
delete_live_example =
    delete_live (codes "bob") (codes "db") with_trash (folder 0o700) (folder 0o700) refl refl refl
      refl refl refl refl refl [] refl

abbrev two_lines : List Text
two_lines = codes "ssh-rsa AAAA" ∷ codes "# by hand" ∷ []

stored : All IsStored two_lines
unfolding contains_char trim_space trim_left trim_right is_space drop_cr byte_len
stored = (
  record { one_line = refl; not_blank = refl; no_return = refl; fits = refl },
  (record { one_line = refl; not_blank = refl; no_return = refl; fits = refl }, tt),
)

abbrev entry : Text → Entry
entry name = record { name = name; is_dir = true }

abbrev trashed : List Entry
trashed = entry (codes "a__m__1") ∷ entry (codes "a__m__3") ∷ entry (codes "b__m__9") ∷ []

latest_is : latest_in (codes "a__m__") [] trashed ≡ codes "a__m__3"
unfolding latest_in has_prefix text_lt
latest_is = refl

-- The repository db__old of alice was deleted, and there is no db.
abbrev old_entry : Text
old_entry = trash_name (codes "alice") (codes "db" ++ (separator ++ codes "old")) 100

abbrev with_old : World
with_old = record with_trash {
  fs = (trash_components ++ old_entry ∷ [], folder 0o700) ∷ with_trash.fs;
}

alice_valid : valid_name (codes "alice") ≡ true
unfolding valid_name is_name_char is_alnum
alice_valid = refl

db_old_valid : valid_name (codes "db" ++ (separator ++ codes "old")) ≡ true
unfolding valid_name is_name_char is_alnum
db_old_valid = refl

no_db : os_exists with_old (repo_dir (codes "alice") (codes "db")) ≡ false
unfolding os_exists stat lookup path_eq text_eq components repo_dir join_path join base clean
    clean_from clean_step pops split split_from has_prefix trash_name stamp date_of_days
no_db = refl

only_old : os_read_dir trash_base with_old ≡ (with_old, ok (entry old_entry ∷ []))
unfolding os_read_dir stat lookup path_eq text_eq components trash_base clean_from clean_step pops
    split split_from has_prefix children below sort_entries insert_entry
only_old = refl

purge_other_name_example :
    ((purge (codes "alice") (codes "db") with_old).1 ≡ ok tt)
    × (stat (trash_components ++ old_entry ∷ []) (purge (codes "alice") (codes "db") with_old).0.fs
        ≡ none)
purge_other_name_example =
    purge_other_name (codes "alice") (codes "db") (codes "old") 100 true with_old [] alice_valid
      db_old_valid no_db only_old
