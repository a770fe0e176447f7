-- ===== src/Machine/Os/Renames.antt =====
-- A file that is renamed over another, and a file that is written through a temporary one.
use ngxborg.Base.{
  ℕ, ◌≡◌, ◌≢◌, refl, sym, ap, subst, ◌∙◌, false, List, [], ◌∷◌, ◌++◌, append-nil, Option, none,
  some, arith, is_nil, Option-cases, inl, inr,
}
use ngxborg.Text.{Text, codes}
use ngxborg.Text.FilePath.{components}
use ngxborg.Machine.Fs.{Node, Fs, path_eq, is_above, put, prune, move, lookup, stat}
use ngxborg.Machine.Fs.Laws.{path_eq_refl, path_eq_iff, is_above_refl, lookup-prune}
use ngxborg.Machine.Fs.Moves.{lookup-move}
use ngxborg.Machine.Error.{ok}
use ngxborg.Machine.World.{World, ◌>>◌}
use ngxborg.Machine.World.Inversion.{>>=-ok}
use ngxborg.Machine.Os.{os_mkdir_all, os_write_file, os_read_file, os_rename}
use ngxborg.Machine.Os.Laws.{stat-put}
use ngxborg.Machine.Os.Writes.{IsFile, os_write_file-ok, os_read_file-file}

-- The file that is written first.
abbrev pub temporary : Text → Text
temporary path = path ++ codes ".tmp"

-- Two paths below the root, none above the other.
pub record AreApart (p q : List Text) : Type 0 where
  pub left_named : p ≢ []
  pub right_named : q ≢ []
  pub not_above : is_above p q ≡ false
  pub not_below : is_above q p ≡ false

moved_here : (p q : List Text) (fs : Fs) → lookup q fs ≡ none → lookup q (move p q fs) ≡ lookup p fs
moved_here p q fs h =
    ap (λ x. lookup x (move p q fs)) (sym (append-nil q))
    ∙ lookup-move p q [] fs (rw append-nil h)
    ∙ ap (λ x. lookup x fs) (append-nil p)

stat_named : (p : List Text) (fs : Fs) → p ≢ [] → stat p fs ≡ lookup p fs
unfolding stat
stat_named [] fs h = absurd (h refl)
stat_named (c ∷ p) fs h = refl

is_nil_named : (p : List Text) → p ≢ [] → is_nil p ≡ false
is_nil_named [] h = absurd (h refl)
is_nil_named (c ∷ p) h = refl

not_same : (p q : List Text) → is_above p q ≡ false → path_eq p q ≡ false
not_same p q h = ground (arith, path_eq_iff p q, is_above_refl p)

-- What a rename of a file that succeeds has made of the tree.
renamed : List Text → List Text → Option Node → Fs → Fs
renamed p q none fs = move p q fs
renamed p q (some m) fs = move p q (prune q fs)

os_rename-renamed :
    (from to : Text) (w : World) (n : Node)
    → AreApart (components from) (components to)
    → stat (components from) w.fs ≡ some n
    → n.is_dir ≡ false
    → (os_rename from to w).1 ≡ ok tt
    → (os_rename from to w).0
      ≡ record w { fs = renamed (components from) (components to) (stat (components to) w.fs) w.fs }
unfolding os_rename renamed
os_rename-renamed from to w n a e plain h = elim (Option-cases (stat (components to) w.fs)) [
  | inl t ↦ ground (
    arith,
    h,
    e,
    plain,
    t,
    is_nil_named (components from) a.left_named,
    is_nil_named (components to) a.right_named,
    not_same (components from) (components to) a.not_above,
    a.not_above,
  )
  | inr (m, t) ↦ ground (
    arith,
    h,
    e,
    plain,
    t,
    is_nil_named (components from) a.left_named,
    is_nil_named (components to) a.right_named,
    not_same (components from) (components to) a.not_above,
    a.not_above,
  )
]

renamed_here :
    (p q : List Text) (fs : Fs) (n : Node)
    → AreApart p q
    → stat p fs ≡ some n
    → stat q (renamed p q (stat q fs) fs) ≡ some n
unfolding renamed
renamed_here p q fs n a e = elim (Option-cases (stat q fs)) [
  | inl t ↦
      rw (t, renamed)
        (stat_named q _ a.right_named
          ∙ moved_here p q fs (sym (stat_named q fs a.right_named) ∙ t)
          ∙ sym (stat_named p fs a.left_named)
          ∙ e)
  | inr (m, t) ↦
      rw (t, renamed)
        (stat_named q _ a.right_named
          ∙ moved_here p q (prune q fs) (lookup-prune q q fs ∙ rw (is_above_refl q) refl)
          ∙ lookup-prune q p fs
          ∙ rw (a.not_below) (sym (stat_named p fs a.left_named) ∙ e))
]

pub os_rename-file :
    (from to : Text) (w : World) (n : Node)
    → AreApart (components from) (components to)
    → stat (components from) w.fs ≡ some n
    → n.is_dir ≡ false
    → (os_rename from to w).1 ≡ ok tt
    → stat (components to) (os_rename from to w).0.fs ≡ some n
os_rename-file from to w n a e plain h =
    ap (λ v. stat (components to) v.fs) (os_rename-renamed from to w n a e plain h)
    ∙ renamed_here (components from) (components to) w.fs n a e

pub put_there : (p : List Text) (n : Node) (fs : Fs) → p ≢ [] → stat p (put p n fs) ≡ some n
put_there p n fs h = stat-put p p n fs h ∙ rw (path_eq_refl p) refl

-- Writing a temporary file and renaming it leaves the text in the file.
pub write_rename :
    (tmp path body : Text) (mode : ℕ) (w : World)
    → AreApart (components tmp) (components path)
    → ((os_write_file tmp body mode >> os_rename tmp path) w).1 ≡ ok tt
    → let v = ((os_write_file tmp body mode >> os_rename tmp path) w).0 in
      (n : Node) × IsFile body n × (stat (components path) v.fs ≡ some n)
write_rename tmp path body mode w a h =
    let one = >>=-ok (os_write_file tmp body mode) (λ _. os_rename tmp path) w h in
    let u = (os_write_file tmp body mode w).0 in
    let wrote = os_write_file-ok tmp body mode w one.1 in
    let there : stat (components tmp) u.fs ≡ some wrote.0 =
      ap (λ v. stat (components tmp) v.fs) wrote.2
      ∙ put_there (components tmp) wrote.0 w.fs a.left_named in
    (
      wrote.0,
      wrote.1,
      ap (λ r. stat (components path) r.0.fs) one.2
          ∙ os_rename-file tmp path u wrote.0 a there wrote.1.plain (ap (λ r. r.1) (sym one.2) ∙ h),
    )

-- The same behind the creation of a directory.
pub mkdir_write_rename :
    (dir tmp path body : Text) (dir_mode mode : ℕ) (w : World)
    → AreApart (components tmp) (components path)
    → ((os_mkdir_all dir dir_mode >> (os_write_file tmp body mode >> os_rename tmp path)) w).1
      ≡ ok tt
    → let v =
        ((os_mkdir_all dir dir_mode >> (os_write_file tmp body mode >> os_rename tmp path)) w).0 in
      os_read_file path v ≡ (v, ok body)
mkdir_write_rename dir tmp path body dir_mode mode w a h =
    let rest = os_write_file tmp body mode >> os_rename tmp path in
    let one = >>=-ok (os_mkdir_all dir dir_mode) (λ _. rest) w h in
    let u = (os_mkdir_all dir dir_mode w).0 in
    let done = write_rename tmp path body mode u a (ap (λ r. r.1) (sym one.2) ∙ h) in
    subst (λ r. os_read_file path r.0 ≡ (r.0, ok body)) (sym one.2)
      (os_read_file-file path body (rest u).0 done.0 done.2 done.1)
