-- ===== src/Borgrepo/Trash/Deleted.antt =====
-- Delete moves a repository to the trash.
use ngxborg.Base.{ℕ, ◌≡◌, refl, sym, ap, ◌∙◌, true, false, List, [], ◌∷◌, ◌++◌, none, some}
use ngxborg.Text.{Text, text_eq}
use ngxborg.Text.FilePath.{components, join_path}
use ngxborg.Machine.Fs.{Node, Fs, path_eq, is_above, move, stat, parent_of}
use ngxborg.Machine.Fs.Moves.{lookup-move, lookup-move_elsewhere}
use ngxborg.Machine.Fs.Laws.{is_above-append}
use ngxborg.Machine.Error.{ok}
use ngxborg.Machine.World.{World}
use ngxborg.Machine.Os.{os_rename, os_mkdir_all}
use ngxborg.Machine.Os.Laws.{os_exists-some}
use ngxborg.Borgrepo.Name.{valid_name}
use ngxborg.Borgrepo.Place.{repo_dir, trash_base}
use ngxborg.Borgrepo.Place.Confined.{valid_name-IsSegment, components-repo_dir, base_components}
use ngxborg.Borgrepo.Trash.{delete, trash_name}
use ngxborg.Borgrepo.Trash.Located.{trash_components, components-join_path, trash_name-IsSegment}

os_rename-some :
    (from to : Text) (w : World) (n m : Node) (c d : Text) (p q : List Text)
    → components from ≡ c ∷ p
    → components to ≡ d ∷ q
    → path_eq (c ∷ p) (d ∷ q) ≡ false
    → is_above (c ∷ p) (d ∷ q) ≡ false
    → stat (parent_of (d ∷ q)) w.fs ≡ some m
    → m.is_dir ≡ true
    → stat (c ∷ p) w.fs ≡ some n
    → n.is_dir ≡ true
    → stat (d ∷ q) w.fs ≡ none
    → os_rename from to w ≡ (record w { fs = move (c ∷ p) (d ∷ q) w.fs }, ok tt)
unfolding os_rename
os_rename-some from to w n m c d p q ef et ne na ep em es en free =
    rw (ef, et) (rw (ne, na) (rw (ep) (rw em (rw es (rw en (rw free))))))

abbrev pub trash_entry : Text → Text → ℕ → List Text
trash_entry t n now = trash_components ++ trash_name t n now ∷ []

abbrev repo_entry : Text → Text → List Text
repo_entry t n = base_components ++ t ∷ n ∷ []

not_same : (t n name : Text) → path_eq (repo_entry t n) (trash_components ++ name ∷ []) ≡ false
unfolding path_eq text_eq
not_same t n name = refl

not_above : (t n name : Text) → is_above (repo_entry t n) (trash_components ++ name ∷ []) ≡ false
unfolding is_above text_eq
not_above t n name = refl

elsewhere :
    (t n name : Text) (r : List Text)
    → is_above (trash_components ++ name ∷ []) (repo_entry t n ++ r) ≡ false
unfolding is_above text_eq
elsewhere t n name r = refl

entry_moved :
    (t n name : Text) (r : List Text) (fs : Fs)
    → stat (trash_components ++ name ∷ r) fs ≡ none
    → (stat
          (trash_components ++ name ∷ r)
          (move (repo_entry t n) (trash_components ++ name ∷ []) fs)
        ≡ stat (repo_entry t n ++ r) fs)
      × (stat (repo_entry t n ++ r) (move (repo_entry t n) (trash_components ++ name ∷ []) fs)
          ≡ none)
unfolding stat
entry_moved t n name r fs free = (
  lookup-move (repo_entry t n) (trash_components ++ name ∷ []) r fs free,
  lookup-move_elsewhere (repo_entry t n) (trash_components ++ name ∷ []) (repo_entry t n ++ r) fs
        (elsewhere t n name r)
      ∙ rw (is_above-append (repo_entry t n) r) refl,
)

module _ (t n : Text) (w : World) (node trash : Node) (ht : valid_name t ≡ true)
    (hn : valid_name n ≡ true) (e : stat (components (repo_dir t n)) w.fs ≡ some node)
    (dir : node.is_dir ≡ true) (ready : os_mkdir_all trash_base 0o700 w ≡ (w, ok tt))
    (there : stat trash_components w.fs ≡ some trash) (trash_dir : trash.is_dir ≡ true)
    (free : stat (trash_entry t n w.now) w.fs ≡ none) where
  located : components (repo_dir t n) ≡ repo_entry t n
  located = components-repo_dir t n (valid_name-IsSegment t ht) (valid_name-IsSegment n hn)

  delete-some :
      delete t n w ≡ (record w { fs = move (repo_entry t n) (trash_entry t n w.now) w.fs }, ok tt)
  unfolding delete
  delete-some =
      rw (os_exists-some w (repo_dir t n) node e, ready)
        (os_rename-some (repo_dir t n) (join_path (trash_base ∷ trash_name t n w.now ∷ [])) w node
          trash _ _ _ _ located
          (components-join_path (trash_name t n w.now) (trash_name-IsSegment t n w.now ht hn))
          (not_same t n (trash_name t n w.now)) (not_above t n (trash_name t n w.now)) there
          trash_dir (ap (λ p. stat p w.fs) (sym located) ∙ e) dir free)

  -- For valid names of a repository that is a directory, where the trash is set up and the entry for
  -- this second is free, Delete succeeds: at every path below the trash entry stands what stood at
  -- the same path below the repository, and there nothing stands any more.
  pub delete_live :
      (r : List Text)
      → stat (trash_components ++ trash_name t n w.now ∷ r) w.fs ≡ none
      → ((delete t n w).1 ≡ ok tt)
        × (stat (trash_components ++ trash_name t n w.now ∷ r) (delete t n w).0.fs
            ≡ stat (components (repo_dir t n) ++ r) w.fs)
        × (stat (components (repo_dir t n) ++ r) (delete t n w).0.fs ≡ none)
  delete_live r empty =
      let moved = entry_moved t n (trash_name t n w.now) r w.fs empty in
      rw (delete-some, located) (refl, moved.0, moved.1)
