-- ===== src/Borgrepo/Trash/Erased.antt =====
-- What Purge and Delete do to a repository that is there.
use ngxborg.Base.{◌≡◌, refl, ◌∙◌, true, List, ◌∷◌, ◌++◌, none, some, if◌then◌else◌}
use ngxborg.Text.{Text, codes}
use ngxborg.Text.FilePath.{components}
use ngxborg.Machine.Fs.{Node, is_above, stat}
use ngxborg.Machine.Fs.Laws.{is_above_refl}
use ngxborg.Machine.Error.{ok}
use ngxborg.Machine.World.{World}
use ngxborg.Machine.Os.{os_remove_all}
use ngxborg.Machine.Os.Laws.{stat-prune, os_exists-some, os_remove_all_lem}
use ngxborg.Borgrepo.Name.{valid_name}
use ngxborg.Borgrepo.Place.{repo_dir}
use ngxborg.Borgrepo.Place.Confined.{valid_name-IsSegment, repo_dir_traversal}
use ngxborg.Borgrepo.Repo.Modes.{repo_dir-ne-root}
use ngxborg.Borgrepo.Trash.{purge}

purge-some :
    (t n : Text) (w : World) (node : Node)
    → stat (components (repo_dir t n)) w.fs ≡ some node
    → purge t n w ≡ os_remove_all (repo_dir t n) w
unfolding purge
purge-some t n w node e = rw (os_exists-some w (repo_dir t n) node e)

-- For valid names of a repository that is there, Purge succeeds and removes its directory with all
-- that is below it, and what stands at every other path stays.
pub purge_live :
    (t n : Text) (w : World) (node : Node) (q : List Text)
    → valid_name t ≡ true
    → valid_name n ≡ true
    → stat (components (repo_dir t n)) w.fs ≡ some node
    → ((purge t n w).1 ≡ ok tt)
      × (stat q (purge t n w).0.fs
          ≡ (if is_above (components (repo_dir t n)) q then none else stat q w.fs))
purge_live t n w node q ht hn e =
    rw (purge-some t n w node e, os_remove_all_lem (repo_dir t n) w (repo_dir-ne-root t n ht hn))
      (refl, stat-prune (components (repo_dir t n)) q w.fs (repo_dir-ne-root t n ht hn))

-- The name "../u/n" is not refused: for a valid tenant t and any other tenant u with a repository
-- n, Purge of "../u/n" as a repository of t erases the repository n of u.
pub purge_traversal :
    (t u n : Text) (w : World) (node : Node)
    → valid_name t ≡ true
    → valid_name u ≡ true
    → valid_name n ≡ true
    → stat (components (repo_dir u n)) w.fs ≡ some node
    → ((purge t (codes "../" ++ (u ++ b'/' ∷ n)) w).1 ≡ ok tt)
      × (stat (components (repo_dir u n)) (purge t (codes "../" ++ (u ++ b'/' ∷ n)) w).0.fs ≡ none)
purge_traversal t u n w node ht hu hn e =
    let ne = repo_dir-ne-root u n hu hn in
    let same =
      repo_dir_traversal t u n ht (valid_name-IsSegment u hu) (valid_name-IsSegment n hn) in
    rw
      (
        purge-some t (codes "../" ++ (u ++ b'/' ∷ n)) w node (rw (same) e),
        same,
        os_remove_all_lem (repo_dir u n) w ne,
      )
      (
        refl,
        stat-prune (components (repo_dir u n)) (components (repo_dir u n)) w.fs ne
            ∙ rw (is_above_refl (components (repo_dir u n))),
      )
