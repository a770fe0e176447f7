-- ===== src/Borgrepo/Repo/Modes.antt =====
-- What disabling and enabling a repository does to the file tree.
use ngxborg.Base.{
  ℕ, ◌≡◌, ◌≢◌, refl, sym, ap, ◌∙◌, true, List, [], none, some, if◌then◌else◌, Bool-cases, inl, inr,
}
use ngxborg.Text.{Text}
use ngxborg.Text.FilePath.{components}
use ngxborg.Machine.Fs.{Node, Fs, path_eq, put, stat}
use ngxborg.Machine.Fs.Laws.{path_eq_iff, path_eq_refl}
use ngxborg.Machine.Error.{no_repo, ok, err}
use ngxborg.Machine.World.{World}
use ngxborg.Machine.Os.Laws.{stat-put, os_exists-some, os_exists-none, os_chmod-some}
use ngxborg.Borgrepo.Name.{valid_name}
use ngxborg.Borgrepo.Place.{repo_dir}
use ngxborg.Borgrepo.Place.Confined.{valid_name-IsSegment, components-repo_dir}
use ngxborg.Borgrepo.Repo.{disable, enable, disabled_mode, enabled_mode}

pub repo_dir-ne-root :
    (t n : Text) → valid_name t ≡ true → valid_name n ≡ true → components (repo_dir t n) ≢ []
repo_dir-ne-root t n ht hn =
    rw (components-repo_dir t n (valid_name-IsSegment t ht) (valid_name-IsSegment n hn)) λ e. cc

put_back :
    (p q : List Text) (node : Node) (fs : Fs)
    → stat p fs ≡ some node
    → node.mode ≡ enabled_mode
    → (if path_eq p q
        then some (record node { mode = enabled_mode })
        else if path_eq p q
        then some (record node { mode = disabled_mode })
        else stat q fs)
      ≡ stat q fs
put_back p q node fs e m = elim (Bool-cases (path_eq p q)) [
  | inl h ↦ rw h (
      ap (λ k. some (record node { mode = k })) (sym m)
      ∙ sym e
      ∙ ap (λ r. stat r fs) ((path_eq_iff p q).0 h))
  | inr h ↦ rw h refl
]

module _ (t n : Text) where
  abbrev with_mode : ℕ → Node → World → World
  with_mode mode node w = record w {
    fs = put (components (repo_dir t n)) (record node { mode = mode }) w.fs;
  }

  disable-some :
      (w : World) (node : Node)
      → stat (components (repo_dir t n)) w.fs ≡ some node
      → disable t n w ≡ (with_mode disabled_mode node w, ok tt)
  unfolding disable
  disable-some w node e =
      rw (os_exists-some w (repo_dir t n) node e)
        (os_chmod-some (repo_dir t n) disabled_mode w node e)

  enable-some :
      (w : World) (node : Node)
      → stat (components (repo_dir t n)) w.fs ≡ some node
      → enable t n w ≡ (with_mode enabled_mode node w, ok tt)
  unfolding enable
  enable-some w node e =
      rw (os_exists-some w (repo_dir t n) node e)
        (os_chmod-some (repo_dir t n) enabled_mode w node e)

  -- For valid names of a repository that is there, Disable succeeds and takes every permission bit
  -- from its directory; its other attributes, and what stands at every other path, stay.
  pub disable_lem :
      (w : World) (node : Node) (q : List Text)
      → valid_name t ≡ true
      → valid_name n ≡ true
      → stat (components (repo_dir t n)) w.fs ≡ some node
      → ((disable t n w).1 ≡ ok tt)
        × (stat q (disable t n w).0.fs ≡ (
            if path_eq (components (repo_dir t n)) q
            then some (record node { mode = 0 })
            else stat q w.fs))
  disable_lem w node q ht hn e =
      rw (disable-some w node e)
        (refl, stat-put (components (repo_dir t n)) q _ w.fs (repo_dir-ne-root t n ht hn))

  -- For valid names of a repository whose directory has the mode that CreateRepo gave it, Enable
  -- after Disable succeeds, and then every path has what it had before.
  pub enable-disable :
      (w : World) (node : Node) (q : List Text)
      → valid_name t ≡ true
      → valid_name n ≡ true
      → stat (components (repo_dir t n)) w.fs ≡ some node
      → node.mode ≡ enabled_mode
      → ((enable t n (disable t n w).0).1 ≡ ok tt)
        × (stat q (enable t n (disable t n w).0).0.fs ≡ stat q w.fs)
  enable-disable w node q ht hn e m =
      let p = components (repo_dir t n) in
      let ne = repo_dir-ne-root t n ht hn in
      let off = record node { mode = disabled_mode } in
      let there : stat p (put p off w.fs) ≡ some off =
        stat-put p p off w.fs ne ∙ rw (path_eq_refl p) in
      rw (disable-some w node e, enable-some (with_mode disabled_mode node w) off there)
        (
          refl,
          stat-put p q (record node { mode = enabled_mode }) (put p off w.fs) ne
              ∙ rw (stat-put p q off w.fs ne) (put_back p q node w.fs e m),
        )

  -- Where no repository stands, Disable and Enable fail and change nothing.
  pub disable_missing :
      (w : World)
      → stat (components (repo_dir t n)) w.fs ≡ none
      → (disable t n w ≡ (w, err no_repo)) × (enable t n w ≡ (w, err no_repo))
  unfolding disable enable
  disable_missing w e = rw (os_exists-none w (repo_dir t n) e) (refl, refl)
