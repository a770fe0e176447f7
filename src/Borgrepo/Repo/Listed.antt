-- ===== src/Borgrepo/Repo/Listed.antt =====
-- What ListRepos lists.
use ngxborg.Base.{
  ◌≡◌, refl, sym, subst, Bool, true, false, List, [], ◌∷◌, ◌++◌, some, All, map, keep_if, arith,
  Option-cases, inl, inr, if◌then◌else◌,
}
use ngxborg.Text.{Text, codes}
use ngxborg.Text.FilePath.{components, join_path}
use ngxborg.Machine.Fs.{Entry, Node, lookup, stat, sort_entries, children}
use ngxborg.Machine.Fs.Found.{AreSegments, IsThere, listed-IsThere}
use ngxborg.Machine.Error.{Result, ok, err, not_exist, io}
use ngxborg.Machine.World.{World, pure, attempt, continue, ◌>>=◌}
use ngxborg.Machine.Os.{os_stat, os_read_dir, os_read_file}
use ngxborg.System.Exec.{Host, capture}
use ngxborg.Borgrepo.Name.{valid_name}
use ngxborg.Borgrepo.Place.{base, repo_dir}
use ngxborg.Borgrepo.Place.Confined.{
  valid_name-IsSegment, base_components, components-repo_dir, components-tenant_dir,
}
use ngxborg.Borgrepo.Repo.{
  Repo, is_initialized, dir_size_mb, stat_repo, repo_list, stat_entries, list_repos,
}
use ngxborg.Borgrepo.Repo.Others.{IsReader}

abbrev pub IsOf : Text → Text → Repo → Type 0
IsOf t n r = (r.name ≡ n) × ((r.tenant ≡ t) × (r.path ≡ repo_dir t n))

abbrev IsStat : Text → Text → Result Repo → Type 0
IsStat t n (ok r) = IsOf t n r
IsStat t n (err e) = ⊥

abbrev pub dirs_of : List Entry → List Text
dirs_of es = map (λ e. e.name) (keep_if (λ e. e.is_dir) es)

abbrev pub AreOf : Text → List Repo → Type 0
AreOf t rs = All (λ r. IsOf t r.name r) rs

abbrev IsListing : Text → List Entry → Result (List Repo) → Type 0
IsListing t es (ok rs) = (map (λ r. r.name) rs ≡ dirs_of es) × AreOf t rs
IsListing t es (err e) = ⊥

os_read_file-world : (path : Text) (w : World) → (os_read_file path w).0 ≡ w
unfolding os_read_file
os_read_file-world path w = ground arith

listing :
    (t : Text) (es : List Entry) (x : Result (List Repo))
    → IsListing t es x
    → (rs : List Repo) × (x ≡ ok rs) × (map (λ r. r.name) rs ≡ dirs_of es) × AreOf t rs
listing t es (ok rs) h = (rs, refl, h.0, h.1)
listing t es (err e) h = absurd h

module _ (host : Host) (reader : IsReader host) where
  stat_repo-IsStat :
      (t n : Text) (w : World) (info : Node)
      → stat (components (repo_dir t n)) w.fs ≡ some info
      → IsStat t n (stat_repo host t n (repo_dir t n) w).1
  unfolding stat_repo os_stat is_initialized dir_size_mb
  stat_repo-IsStat t n w info e = rw e (refl, (refl, refl))

  stat_repo-fs :
      (t n dir : Text) (w : World) (info : Node)
      → stat (components dir) w.fs ≡ some info
      → (stat_repo host t n dir w).0.fs ≡ w.fs
  unfolding stat_repo is_initialized dir_size_mb capture os_stat
  stat_repo-fs t n dir w info e =
      let read = os_read_file-world (join_path (dir ∷ codes "config" ∷ [])) w in
      rw (e, read) (reader w (codes "-sm" ∷ dir ∷ []))

  consed :
      (t : Text) (e : Entry) (es : List Entry) (x : Result Repo) (rest : Result (List Repo))
      (v : World)
      → e.is_dir ≡ true
      → IsStat t e.name x
      → IsListing t es rest
      → IsListing t (e ∷ es) (continue rest (λ rs. pure (repo_list host x ++ rs)) v).1
  consed t e es (ok r) (ok rs) v d h k =
      rw d (ground (arith, h.0, k.0), ((refl, (h.1.0, rw h.0 h.1.1)), k.1))
  consed t e es (ok r) (err x) v d h k = absurd k
  consed t e es (err x) rest v d h k = absurd h

  skipped :
      (t : Text) (e : Entry) (es : List Entry) (rest : Result (List Repo)) (v : World)
      → e.is_dir ≡ false
      → IsListing t es rest
      → IsListing t
          (e ∷ es)
          (continue rest (λ rs. pure (repo_list host (err (io not_exist)) ++ rs)) v).1
  skipped t e es (ok rs) v d k = rw d k
  skipped t e es (err x) v d k = absurd k

  there_node :
      (t : Text) (ht : valid_name t ≡ true) (e : Entry) (w : World)
      → IsThere (base_components ++ t ∷ []) w.fs e
      → (info : Node) × (stat (components (repo_dir t e.name)) w.fs ≡ some info)
  unfolding stat
  there_node t ht e w h = elim (Option-cases (lookup (base_components ++ t ∷ e.name ∷ []) w.fs)) [
    | inl k ↦ absurd (ground (arith, k, h.1))
    | inr (info, k) ↦ (info, rw (components-repo_dir t e.name (valid_name-IsSegment t ht) h.0) k)
  ]

  entry_step :
      (t : Text) (ht : valid_name t ≡ true) (e : Entry) (es : List Entry) (w : World) (b : Bool)
      → e.is_dir ≡ b
      → IsThere (base_components ++ t ∷ []) w.fs e
      → ((v : World) → v.fs ≡ w.fs → IsListing t es (stat_entries host t es v).1)
      → IsListing t
          (e ∷ es)
          (((if b
                then attempt (stat_repo host t e.name (repo_dir t e.name))
                else pure (err (io not_exist)))
              >>= (λ found.
                  stat_entries host t es >>= (λ rest. pure (repo_list host found ++ rest))))
            w).1
  entry_step t ht e es w true d h k =
      let node = there_node t ht e w h in
      let done = stat_repo host t e.name (repo_dir t e.name) w in
      consed t e es done.1 (stat_entries host t es done.0).1 (stat_entries host t es done.0).0 d
        (stat_repo-IsStat t e.name w node.0 node.1)
        (k done.0 (stat_repo-fs t e.name (repo_dir t e.name) w node.0 node.1))
  entry_step t ht e es w false d h k =
      skipped t e es (stat_entries host t es w).1 (stat_entries host t es w).0 d (k w refl)

  -- The loop over entries of the tenant's directory that are there.
  stat_entries-IsListing :
      (t : Text) (ht : valid_name t ≡ true) (es : List Entry) (w : World)
      → All (IsThere (base_components ++ t ∷ []) w.fs) es
      → IsListing t es (stat_entries host t es w).1
  unfolding stat_entries
  stat_entries-IsListing t ht [] w h = (refl, tt)
  stat_entries-IsListing t ht (e ∷ es) w h = entry_step t ht e es w e.is_dir refl h.0 (λ v same.
      stat_entries-IsListing t ht es v
        (subst (λ fs. All (IsThere (base_components ++ t ∷ []) fs) es) (sym same) h.1))

  read-IsThere :
      (t : Text) (w : World) (es : List Entry)
      → valid_name t ≡ true
      → AreSegments w.fs
      → os_read_dir (join_path (base ∷ t ∷ [])) w ≡ (w, ok es)
      → All (IsThere (base_components ++ t ∷ []) w.fs) es
  unfolding os_read_dir
  read-IsThere t w es ht h e =
      let p = components (join_path (base ∷ t ∷ [])) in
      let same : sort_entries (children p w.fs) ≡ es = ground (arith, e) in
      subst (All (IsThere (base_components ++ t ∷ []) w.fs)) same (
        subst (λ p. All (IsThere (base_components ++ t ∷ []) w.fs) (sort_entries (children p w.fs)))
          (sym (components-tenant_dir t (valid_name-IsSegment t ht)))
          (listed-IsThere (base_components ++ t ∷ []) w.fs h))

  -- Where `du` changes no file, and no name in the file tree is empty, "." or ".." or holds a slash:
  -- for a valid name of a tenant whose directory ReadDir lists, ListRepos succeeds, and its
  -- repositories are those of the tenant with the names of the directories listed, none left out,
  -- in the same order, each with its path.
  pub list_repos_lem :
      (t : Text) (w : World) (es : List Entry)
      → valid_name t ≡ true
      → AreSegments w.fs
      → os_read_dir (join_path (base ∷ t ∷ [])) w ≡ (w, ok es)
      → (rs : List Repo) × ((list_repos host t w).1 ≡ ok rs)
        × (map (λ r. r.name) rs ≡ dirs_of es)
        × AreOf t rs
  unfolding list_repos
  list_repos_lem t w es ht h e =
      rw (ht, e) (listing t es _ (stat_entries-IsListing t ht es w (read-IsThere t w es ht h e)))
