-- ===== src/Borgrepo/Trash.antt =====
-- internal/borgrepo/borgrepo.go: Delete moves a repository to the trash, Purge erases it.
pub mod Erased
pub mod Confused
pub mod Latest
pub mod Bounded
pub mod Deleted
pub mod Located
pub mod Others
use ngxborg.Base.{
  ℕ, Bool, true, false, not, ◌&&◌, List, [], ◌∷◌, ◌++◌, Option, none, some, if◌then◌else◌, is_nil,
}
use ngxborg.Text.{Text, codes, has_prefix, text_lt}
use ngxborg.Text.FilePath.{join_path}
use ngxborg.Machine.Fs.{Entry}
use ngxborg.Machine.Error.{
  Error, io, IoError, not_exist, no_repo, no_repo_anywhere, Result, ok, err,
}
use ngxborg.Machine.World.{World, M, pure, gets, guard, attempt, continue, ◌>>=◌, ◌>>◌}
use ngxborg.Machine.Os.{os_exists, os_mkdir_all, os_rename, os_read_dir, os_remove_all}
use ngxborg.Borgrepo.Place.{base, trash_base, repo_dir}
use ngxborg.Borgrepo.Stamp.{stamp}

abbrev pub separator : Text
separator = codes "__"

-- fmt.Sprintf("%s__%s__%s", tenant, name, …)
unfoldable pub trash_name : Text → Text → ℕ → Text
trash_name tenant name now = tenant ++ (separator ++ (name ++ (separator ++ stamp now)))

unfoldable pub delete : Text → Text → M (Unit {0})
delete tenant name = do
  let dir = repo_dir tenant name
  there ← gets (λ w. os_exists w dir)
  guard there no_repo
  os_mkdir_all trash_base 0o700
  now ← gets (λ w. w.now)
  os_rename dir (join_path (trash_base ∷ trash_name tenant name now ∷ []))

unfoldable pub trash_prefix : Text → Text → Text
trash_prefix tenant name = tenant ++ (separator ++ (name ++ separator))

-- The loop of findInTrash: the greatest name with the prefix, or "".
unfoldable pub latest_in : Text → Text → List Entry → Text
latest_in prefix latest [] = latest
latest_in prefix latest (e ∷ es) =
    latest_in prefix (if has_prefix e.name prefix && text_lt latest e.name then e.name else latest)
      es

abbrev entries_of : Result (List Entry) → M (List Entry)
entries_of (ok es) w = (w, ok es)
entries_of (err (io not_exist)) w = (w, ok [])
entries_of (err e) w = (w, err e)

unfoldable pub find_in_trash : Text → Text → M Text
find_in_trash tenant name = do
  found ← attempt (os_read_dir trash_base)
  es ← entries_of found
  let latest = latest_in (trash_prefix tenant name) [] es
  pure (if is_nil latest then [] else join_path (trash_base ∷ latest ∷ []))

unfoldable pub purge : Text → Text → M (Unit {0})
purge tenant name = do
  let live = repo_dir tenant name
  there ← gets (λ w. os_exists w live)
  if there then os_remove_all live else (do
    trashed ← find_in_trash tenant name
    guard (not (is_nil trashed)) no_repo_anywhere
    os_remove_all trashed)
