-- ===== src/Borgrepo/Trash/Others.antt =====
-- What Delete and Purge leave as it is: the directories of other tenants.
use ngxborg.Base.{
  ◌≡◌, ◌≢◌, ◌⊎◌, refl, ap, subst, true, false, not, List, [], ◌∷◌, ◌++◌, arith, Bool-cases,
  Option-cases, inl, inr, is_nil, if◌then◌else◌,
}
use ngxborg.Text.{Text, has_prefix}
use ngxborg.Text.FilePath.{components, join_path}
use ngxborg.Text.FilePath.Laws.{IsSegment}
use ngxborg.Machine.Fs.{Entry, is_above, stat}
use ngxborg.Machine.Fs.Names.{IsName, IsTree, AreNamed, listed-AreNamed}
use ngxborg.Machine.Error.{Result, ok, err, not_exist, io, no_repo, no_repo_anywhere}
use ngxborg.Machine.World.{World, M, pure, guard, ◌>>=◌, ◌>>◌}
use ngxborg.Machine.Os.{os_mkdir_all, os_rename, os_read_dir, os_exists, os_remove_all}
use ngxborg.Machine.Os.Frames.{
  continue-same, Spares, guard-Spares, gets-Spares, >>=-Spares, >>-Spares, step-Spares,
  stat-os_mkdir_all, stat-os_rename, stat-os_remove_all,
}
use ngxborg.Borgrepo.Name.{valid_name, is_alnum}
use ngxborg.Borgrepo.Place.{trash_base, repo_dir}
use ngxborg.Borgrepo.Place.Others
use ngxborg.Borgrepo.Place.Others.{tenant_path, trash_above, above_trash}
use ngxborg.Borgrepo.Trash.{
  delete, purge, trash_name, trash_prefix, separator, latest_in, find_in_trash, entries_of,
}
use ngxborg.Borgrepo.Trash.Latest.{latest_in_cases}
use ngxborg.Borgrepo.Trash.Located.{components-join_path, trash_name-IsSegment}

module _ (t n u : Text) (rest : List Text) (ht : valid_name t ≡ true) (hn : valid_name n ≡ true)
    (other : t ≢ u) where
  abbrev q : List Text
  q = tenant_path u rest

  entry_above :
      (name : Text)
      → IsSegment name
      → is_above (components (join_path (trash_base ∷ name ∷ []))) q ≡ false
  entry_above name h = rw (components-join_path name h) (trash_above name u rest)

  entry_named :
      (name : Text) → IsSegment name → components (join_path (trash_base ∷ name ∷ [])) ≢ []
  entry_named name h = rw (components-join_path name h) (λ e. cc)

  pub delete-Spares : Spares q (delete t n)
  unfolding delete
  delete-Spares = >>=-Spares (gets-Spares (λ w. os_exists w (repo_dir t n))) (λ there.
      >>-Spares (guard-Spares there no_repo) (
        >>-Spares
          (step-Spares (os_mkdir_all trash_base 0o700)
            (λ w. stat-os_mkdir_all trash_base 0o700 w q (above_trash u rest)))
          (>>=-Spares (gets-Spares (λ w. w.now)) (λ now.
            step-Spares
              (os_rename (repo_dir t n) (join_path (trash_base ∷ trash_name t n now ∷ [])))
              (λ w.
                stat-os_rename (repo_dir t n) (join_path (trash_base ∷ trash_name t n now ∷ [])) w _
                  _ (Others.not_above t n u rest ht hn other)
                  (entry_above (trash_name t n now) (trash_name-IsSegment t n now ht hn)))))))

  -- "" or the path of an entry of the trash.
  abbrev IsTrashed : Text → Type 0
  IsTrashed p =
      (p ≡ []) ⊎ ((name : Text) × IsSegment name × (p ≡ join_path (trash_base ∷ name ∷ [])))

  remove-Spares :
      (p : Text)
      → IsTrashed p
      → Spares q (guard (not (is_nil p)) no_repo_anywhere >> os_remove_all p)
  remove-Spares p (inl e) = rw e (step-Spares _ (λ w. refl))
  remove-Spares p (inr (name, h, e)) = >>-Spares (guard-Spares (not (is_nil p)) no_repo_anywhere) (
      step-Spares (os_remove_all p) (λ w. rw e (
        stat-os_remove_all (join_path (trash_base ∷ name ∷ [])) w q (entry_named name h)
          (entry_above name h))))

-- A name that begins with a valid name and holds no slash.
prefixed-IsSegment :
    (t rest name : Text)
    → valid_name t ≡ true
    → has_prefix name (t ++ rest) ≡ true
    → IsName name
    → IsSegment name
unfolding valid_name is_alnum has_prefix
prefixed-IsSegment [] rest name ht h k = absurd (ground (arith, ht))
prefixed-IsSegment (c ∷ t) rest [] ht h k = absurd (ground (arith, h))
prefixed-IsSegment (c ∷ t) rest (d ∷ name) ht h k = record {
  no_slash = k;
  named = λ e. cc;
  not_dot = λ e. ground (arith, h, ht);
  not_dots = λ e. ground (arith, h, ht);
}

module _ (t n : Text) (ht : valid_name t ≡ true) where
  abbrev IsEntry : Text → Type 0
  IsEntry name = (name ≡ []) ⊎ IsSegment name

  latest-IsEntry :
      (l : Text) (es : List Entry)
      → IsEntry l
      → AreNamed es
      → IsEntry (latest_in (trash_prefix t n) l es)
  latest-IsEntry l [] h k = unfold latest_in in h
  latest-IsEntry l (e ∷ es) h k =
      latest_in_cases (trash_prefix t n) IsEntry l e es
        (λ b.
          latest-IsEntry e.name es
            (inr (
              unfold trash_prefix in
              prefixed-IsSegment t (separator ++ (n ++ separator)) e.name ht (ground (arith, b))
                k.0))
            k.1)
        (λ b. latest-IsEntry l es h k.1)

  trashed_path : Text → Text
  trashed_path latest = if is_nil latest then [] else join_path (trash_base ∷ latest ∷ [])

  chosen : List Entry → M Text
  chosen es = pure (trashed_path (latest_in (trash_prefix t n) [] es))

  -- The path of an entry, or none.
  abbrev IsPlace : Text → Type 0
  IsPlace p = (p ≡ []) ⊎ ((name : Text) × IsSegment name × (p ≡ join_path (trash_base ∷ name ∷ [])))

  trashed_path-IsPlace : (l : Text) → IsEntry l → IsPlace (trashed_path l)
  unfolding trashed_path
  trashed_path-IsPlace [] h = inl refl
  trashed_path-IsPlace (c ∷ l) (inl e) = absurd (cc)
  trashed_path-IsPlace (c ∷ l) (inr h) = inr (c ∷ l, h, refl)

  -- Goes on from what was listed of the trash, and changes nothing.
  abbrev IsFrom : World → World × Result Text → Type 0
  IsFrom w x = (x.0 ≡ w) × ((p : Text) → x.1 ≡ ok p → IsPlace p)

  chosen-IsFrom : (es : List Entry) (w : World) → AreNamed es → IsFrom w (chosen es w)
  unfolding chosen
  chosen-IsFrom es w h =
      let latest = latest_in (trash_prefix t n) [] es in
      (
        refl,
        λ p e.
            let same : trashed_path latest ≡ p = cc in
            subst IsPlace same (trashed_path-IsPlace latest (latest-IsEntry [] es (inl refl) h)),
      )

  listed-IsFrom :
      (r : Result (List Entry)) (w : World)
      → ((es : List Entry) → r ≡ ok es → AreNamed es)
      → IsFrom w ((entries_of r >>= chosen) w)
  listed-IsFrom (ok es) w h = chosen-IsFrom es w (h es refl)
  listed-IsFrom (err (io not_exist)) w h = chosen-IsFrom [] w tt
  listed-IsFrom (err _) w h = (refl, λ p e. absurd (ground (arith, e)))

  find_in_trash-IsFrom : (w : World) → IsTree w.fs → IsFrom w (find_in_trash t n w)
  unfolding find_in_trash os_read_dir chosen trashed_path
  find_in_trash-IsFrom w h = elim (Option-cases (stat (components trash_base) w.fs)) [
    | inl e ↦ rw e (listed-IsFrom (err (io not_exist)) w (λ es k. absurd (ground (arith, k))))
    | inr (node, e) ↦ rw e (elim (Bool-cases node.is_dir) [
      | inl d ↦ rw d (chosen-IsFrom _ w (listed-AreNamed (components trash_base) w.fs h))
      | inr d ↦ rw d (refl, λ p k. absurd (ground (arith, k)))
    ])
  ]

  -- Purge of a repository with valid names leaves every path in the directory of another tenant.
  pub purge_same :
      (u : Text) (rest : List Text) (w : World)
      → valid_name n ≡ true
      → t ≢ u
      → IsTree w.fs
      → stat (tenant_path u rest) (purge t n w).0.fs ≡ stat (tenant_path u rest) w.fs
  unfolding purge
  purge_same u rest w hn other h = elim (Bool-cases (os_exists w (repo_dir t n))) [
    | inl e ↦ rw e (
        stat-os_remove_all (repo_dir t n) w (tenant_path u rest)
          (Others.named t n u rest ht hn other) (Others.not_above t n u rest ht hn other))
    | inr e ↦
        let from = find_in_trash-IsFrom w h in
        rw e (
          continue-same (tenant_path u rest) (find_in_trash t n w).1 _ (find_in_trash t n w).0 w
            (ap (λ v. stat (tenant_path u rest) v.fs) from.0)
            (λ p k. remove-Spares t n u rest ht hn other p (from.1 p k)))
  ]
