-- ===== src/Machine/Os/Frames.antt =====
-- What the file operations leave as it is: paths that are not theirs.
use ngxborg.Base.{
  ℕ, ◌≡◌, ◌≢◌, refl, ap, ◌∙◌, Bool, true, false, List, [], ◌∷◌, ◌++◌, append_assoc, Option, none,
  some, if◌then◌else◌, arith, Bool-cases, Option-cases, inl, inr,
}
use ngxborg.Text.{Text}
use ngxborg.Text.FilePath.{components}
use ngxborg.Machine.Fs.{Node, Fs, path_eq, is_above, prune, stat, parent_of}
use ngxborg.Machine.Fs.Laws.{path_eq_iff, lookup-prune, is_above-append}
use ngxborg.Machine.Fs.Moves.{lookup-move_elsewhere}
use ngxborg.Machine.Error.{Error, Result, ok, err}
use ngxborg.Machine.World.{World, M, pure, gets, guard, or_fail, attempt, continue, ◌>>=◌, ◌>>◌}
use ngxborg.Machine.World.Inversion.{>>=-keeps}
use ngxborg.Machine.Os.{
  os_mkdir_all, os_write_file, is_directory, store, written, mkdir_step, mkdir_from, made, os_chown,
  os_chmod, os_rename, os_remove_all,
}
use ngxborg.Machine.Os.Laws.{stat-put, stat-prune, os_remove_all_lem}

-- Where there is a tree, `q` is in it as in `fs`.
abbrev IsSame : List Text → Fs → Option Fs → Type 0
IsSame q fs none = Unit {0}
IsSame q fs (some gs) = stat q gs ≡ stat q fs

path_eq_ne : (p q : List Text) → p ≢ q → path_eq p q ≡ false
path_eq_ne p q h = elim (Bool-cases (path_eq p q)) [
  | inl e ↦ absurd (h ((path_eq_iff p q).0 e))
  | inr e ↦ e
]

not_above_ne : (p q r : List Text) → is_above q (p ++ r) ≡ false → p ≢ q
not_above_ne p q r h e =
    absurd (ground (arith, ap (λ x. is_above x (p ++ r)) e, is_above-append p r, h))

mkdir_step-IsSame :
    (w : World) (mode : ℕ) (p q : List Text) (fs : Fs) (o : Option Fs)
    → p ≢ []
    → p ≢ q
    → IsSame q fs o
    → IsSame q fs (mkdir_step w mode p o)
unfolding mkdir_step
mkdir_step-IsSame w mode p q fs none n h e = tt
mkdir_step-IsSame w mode p q fs (some gs) n h e = elim (Option-cases (stat p gs)) [
  | inl f ↦ rw (IsSame, f) (stat-put p q _ gs n ∙ rw (path_eq_ne p q h) e)
  | inr (node, f) ↦
      rw (IsSame, f)
        (elim (Bool-cases node.is_dir) [ inl d ↦ rw (IsSame, d) e | inr d ↦ rw (IsSame, d) tt ])
]

snoc_ne : (p : List Text) (c : Text) → p ++ c ∷ [] ≢ []
snoc_ne [] c e = cc
snoc_ne (d ∷ p) c e = cc

mkdir_from-IsSame :
    (w : World) (mode : ℕ) (done cs q : List Text) (fs : Fs) (o : Option Fs)
    → is_above q (done ++ cs) ≡ false
    → IsSame q fs o
    → IsSame q fs (mkdir_from w mode done cs o)
unfolding mkdir_from
mkdir_from-IsSame w mode done [] q fs o h e = e
mkdir_from-IsSame w mode done (c ∷ cs) q fs o h e =
    let k : is_above q ((done ++ c ∷ []) ++ cs) ≡ false = rw (append_assoc done (c ∷ []) cs) h in
    mkdir_from-IsSame w mode (done ++ c ∷ []) cs q fs (mkdir_step w mode (done ++ c ∷ []) o) k (
      mkdir_step-IsSame w mode (done ++ c ∷ []) q fs o (snoc_ne done c)
        (not_above_ne (done ++ c ∷ []) q cs k) e)

made_same :
    (w : World) (q : List Text) (o : Option Fs)
    → IsSame q w.fs o
    → stat q (made w o).0.fs ≡ stat q w.fs
made_same w q none h = refl
made_same w q (some gs) h = h

pub stat-os_mkdir_all :
    (path : Text) (mode : ℕ) (w : World) (q : List Text)
    → is_above q (components path) ≡ false
    → stat q (os_mkdir_all path mode w).0.fs ≡ stat q w.fs
unfolding os_mkdir_all
stat-os_mkdir_all path mode w q h =
    made_same w q (mkdir_from w mode [] (components path) (some w.fs))
      (mkdir_from-IsSame w mode [] (components path) q w.fs (some w.fs) h refl)

pub stat-os_chmod :
    (path : Text) (mode : ℕ) (w : World) (q : List Text)
    → components path ≢ []
    → path_eq (components path) q ≡ false
    → stat q (os_chmod path mode w).0.fs ≡ stat q w.fs
unfolding os_chmod
stat-os_chmod path mode w q n h = elim (Option-cases (stat (components path) w.fs)) [
  | inl e ↦ rw e refl
  | inr (node, e) ↦ rw e (stat-put (components path) q _ w.fs n ∙ rw h refl)
]

pub stat-os_chown :
    (path : Text) (uid gid : ℕ) (w : World) (q : List Text)
    → components path ≢ []
    → path_eq (components path) q ≡ false
    → stat q (os_chown path uid gid w).0.fs ≡ stat q w.fs
unfolding os_chown
stat-os_chown path uid gid w q n h = elim (Option-cases (stat (components path) w.fs)) [
  | inl e ↦ rw e refl
  | inr (node, e) ↦ rw e (stat-put (components path) q _ w.fs n ∙ rw h refl)
]

pub stat-os_remove_all :
    (path : Text) (w : World) (q : List Text)
    → components path ≢ []
    → is_above (components path) q ≡ false
    → stat q (os_remove_all path w).0.fs ≡ stat q w.fs
stat-os_remove_all path w q n h =
    rw (os_remove_all_lem path w n) (stat-prune (components path) q w.fs n ∙ rw h refl)

pub stat-os_rename :
    (from to : Text) (w : World) (c : Text) (q : List Text)
    → is_above (components from) (c ∷ q) ≡ false
    → is_above (components to) (c ∷ q) ≡ false
    → stat (c ∷ q) (os_rename from to w).0.fs ≡ stat (c ∷ q) w.fs
unfolding os_rename stat
stat-os_rename from to w c q h k = ground (
  arith,
  lookup-move_elsewhere (components from) (components to) (c ∷ q) w.fs k,
  lookup-move_elsewhere (components from) (components to) (c ∷ q) (prune (components to) w.fs) k,
  lookup-prune (components to) (c ∷ q) w.fs,
)

stored_same :
    (p q : List Text) (w : World) (o : Option Node)
    → p ≢ []
    → path_eq p q ≡ false
    → stat q (store w p o).0.fs ≡ stat q w.fs
stored_same p q w none n h = refl
stored_same p q w (some node) n h = stat-put p q node w.fs n ∙ rw h refl

pub stat-os_write_file :
    (path body : Text) (mode : ℕ) (w : World) (q : List Text)
    → components path ≢ []
    → path_eq (components path) q ≡ false
    → stat q (os_write_file path body mode w).0.fs ≡ stat q w.fs
unfolding os_write_file
stat-os_write_file path body mode w q n h =
    let p = components path in
    elim (Bool-cases (is_directory (stat (parent_of p) w.fs))) [
      | inl d ↦ rw d (stored_same p q w (written w body mode (stat p w.fs)) n h)
      | inr d ↦ rw d refl
    ]

-- A step that leaves what stands at the path.
pub record Spares {ℓ} {A : Type ℓ} (q : List Text) (m : M A) : Type ℓ where
  pub spares : (w : World) → stat q (m w).0.fs ≡ stat q w.fs

pub step-Spares {ℓ} :
    {A : Type ℓ} {q : List Text} (m : M A)
    → ((w : World) → stat q (m w).0.fs ≡ stat q w.fs)
    → Spares q m
step-Spares m h = record { spares = h }

-- A step that leaves the file tree.
pub same_tree-Spares {ℓ} :
    {A : Type ℓ} {q : List Text} (m : M A) → ((w : World) → (m w).0.fs ≡ w.fs) → Spares q m
same_tree-Spares {q = q} m h = record { spares = λ w. ap (stat q) (h w) }

pub pure-Spares {ℓ} : {A : Type ℓ} {q : List Text} (a : A) → Spares q (pure a)
pure-Spares a = record { spares = λ w. refl }

pub gets-Spares {ℓ} : {A : Type ℓ} {q : List Text} (f : World → A) → Spares q (gets f)
gets-Spares f = record { spares = λ w. refl }

pub guard-Spares : {q : List Text} (b : Bool) (e : Error) → Spares q (guard b e)
guard-Spares true e = record { spares = λ w. refl }
guard-Spares false e = record { spares = λ w. refl }

pub or_fail-Spares {ℓ} :
    {A : Type ℓ} {q : List Text} (e : Error) (o : Option A) → Spares q (or_fail e o)
or_fail-Spares e none = record { spares = λ w. refl }
or_fail-Spares e (some a) = record { spares = λ w. refl }

pub attempt-Spares {ℓ} : {A : Type ℓ} {q : List Text} {m : M A} → Spares q m → Spares q (attempt m)
attempt-Spares h = record { spares = h.spares }

pub >>=-Spares {ℓ κ} :
    {A : Type ℓ} {B : Type κ} {q : List Text} {m : M A} {f : A → M B}
    → Spares q m
    → ((a : A) → Spares q (f a))
    → Spares q (m >>= f)
>>=-Spares {q = q} {m = m} {f = f} h k = record {
  spares = λ w. >>=-keeps (λ v. stat q v.fs) m f w (h.spares w) (λ a v. (k a).spares v);
}

pub >>-Spares {ℓ κ} :
    {A : Type ℓ} {B : Type κ} {q : List Text} {m : M A} {k : M B}
    → Spares q m
    → Spares q k
    → Spares q (m >> k)
>>-Spares h n = >>=-Spares h (λ _. n)

pub if-Spares {ℓ} :
    {A : Type ℓ} {q : List Text} (b : Bool) {m k : M A}
    → Spares q m
    → Spares q k
    → Spares q (if b then m else k)
if-Spares true h n = h
if-Spares false h n = n

-- A step that goes on from a result.
pub continue-same {ℓ κ} :
    {A : Type ℓ} {B : Type κ} (q : List Text) (r : Result A) (f : A → M B) (v w : World)
    → stat q v.fs ≡ stat q w.fs
    → ((a : A) → r ≡ ok a → Spares q (f a))
    → stat q (continue r f v).0.fs ≡ stat q w.fs
continue-same q (ok a) f v w e h = (h a refl).spares v ∙ e
continue-same q (err x) f v w e h = e
