-- ===== src/Borgrepo/Trash/Confused.antt =====
-- Names in the trash are not told apart.
use ngxborg.Base.{
  ℕ, Bool, ◌≡◌, ◌≢◌, refl, ◌∙◌, true, false, List, [], ◌∷◌, ◌++◌, none, append_assoc, is_nil,
}
use ngxborg.Text.FilePath.{components, join_path, clean_from, clean_step}
use ngxborg.Text.FilePath.Laws.{IsSegment}
use ngxborg.Machine.Fs.{is_above, stat}
use ngxborg.Machine.Fs.Laws.{is_above-append}
use ngxborg.Machine.Error.{ok}
use ngxborg.Machine.World.{World}
use ngxborg.Machine.Os.{os_exists, os_read_dir, os_remove_all}
use ngxborg.Machine.Os.Laws.{stat-prune, os_remove_all_lem}
use ngxborg.Borgrepo.Name.{valid_name}
use ngxborg.Borgrepo.Place.{trash_base, repo_dir}
use ngxborg.Borgrepo.Trash.{purge, find_in_trash, latest_in}
use ngxborg.Borgrepo.Trash.Located.{trash_components, components-join_path, trash_name-IsSegment}
use ngxborg.Text.{Text, has_prefix, text_lt, split, split_from}
use ngxborg.Text.Search.{has_prefix-append}
use ngxborg.Borgrepo.Stamp.{stamp}
use ngxborg.Borgrepo.Trash.{separator, trash_name, trash_prefix}

regroup : (t n x : Text) → t ++ (separator ++ (n ++ (separator ++ x))) ≡ trash_prefix t n ++ x
unfolding trash_prefix
regroup t n x =
    rw (append_assoc t (separator ++ (n ++ separator)) x, append_assoc n separator x) refl

-- In the trash every repository of tenant t whose name begins with n and "__" passes for the
-- repository n of t, whenever it was deleted.
trash_name_taken :
    (t n rest : Text) (now : ℕ)
    → has_prefix (trash_name t (n ++ (separator ++ rest)) now) (trash_prefix t n) ≡ true
unfolding trash_name
trash_name_taken t n rest now =
    rw
      (
        append_assoc n (separator ++ rest) (separator ++ stamp now),
        regroup t n (rest ++ (separator ++ stamp now)),
      )
      (has_prefix-append (trash_prefix t n) (rest ++ (separator ++ stamp now)))

-- The only entry of the trash, if it has the prefix.
latest_in_one :
    (prefix name : Text) (dir : Bool)
    → name ≢ []
    → has_prefix name prefix ≡ true
    → latest_in prefix [] (record { name = name; is_dir = dir } ∷ []) ≡ name
unfolding latest_in text_lt
latest_in_one prefix [] dir n h = absurd (n refl)
latest_in_one prefix (c ∷ name) dir n h = rw h refl

path_named : (p : Text) → components p ≢ [] → is_nil p ≡ false
unfolding components clean_from clean_step split split_from has_prefix
path_named [] h = absurd (h refl)
path_named (c ∷ p) h = refl

text_named : (s : Text) → s ≢ [] → is_nil s ≡ false
text_named [] h = absurd (h refl)
text_named (c ∷ s) h = refl

entry_named : (name : Text) → IsSegment name → components (join_path (trash_base ∷ name ∷ [])) ≢ []
entry_named name h = rw (components-join_path name h) λ e. cc

purge_found :
    (t n name : Text) (dir : Bool) (w : World)
    → os_exists w (repo_dir t n) ≡ false
    → os_read_dir trash_base w ≡ (w, ok (record { name = name; is_dir = dir } ∷ []))
    → IsSegment name
    → has_prefix name (trash_prefix t n) ≡ true
    → purge t n w ≡ os_remove_all (join_path (trash_base ∷ name ∷ [])) w
unfolding purge find_in_trash
purge_found t n name dir w gone listed h taken =
    rw
      (
        gone,
        listed,
        latest_in_one (trash_prefix t n) name dir h.named taken,
        text_named name h.named,
        path_named (join_path (trash_base ∷ name ∷ [])) (entry_named name h),
      )
      refl

-- For a tenant t and a name n with no live repository, where the trash holds nothing but a
-- repository of t with another valid name, one that begins with n and "__", deleted at any time:
-- Purge of n succeeds and erases that other repository, with all that is below it.
pub purge_other_name :
    (t n rest : Text) (before : ℕ) (dir : Bool) (w : World) (r : List Text)
    → valid_name t ≡ true
    → valid_name (n ++ (separator ++ rest)) ≡ true
    → os_exists w (repo_dir t n) ≡ false
    → os_read_dir trash_base w ≡ (
      w,
      ok (record { name = trash_name t (n ++ (separator ++ rest)) before; is_dir = dir } ∷ []),
    )
    → ((purge t n w).1 ≡ ok tt)
      × (stat
            (trash_components ++ trash_name t (n ++ (separator ++ rest)) before ∷ r)
            (purge t n w).0.fs
          ≡ none)
purge_other_name t n rest before dir w r ht hn gone listed =
    let name = trash_name t (n ++ (separator ++ rest)) before in
    let h = trash_name-IsSegment t (n ++ (separator ++ rest)) before ht hn in
    let path = join_path (trash_base ∷ name ∷ []) in
    let below : is_above (components path) (trash_components ++ name ∷ r) ≡ true =
      rw (components-join_path name h) (is_above-append (trash_components ++ name ∷ []) r) in
    rw
      (
        purge_found t n name dir w gone listed h (trash_name_taken t n rest before),
        os_remove_all_lem path w (entry_named name h),
      )
      (
        refl,
        stat-prune (components path) (trash_components ++ name ∷ r) w.fs (entry_named name h)
            ∙ rw below refl,
      )
