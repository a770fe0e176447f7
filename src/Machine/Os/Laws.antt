-- ===== src/Machine/Os/Laws.antt =====
-- What the file operations do to a path that is there, and leave elsewhere.
use ngxborg.Base.{ℕ, ◌≡◌, ◌≢◌, refl, true, false, List, [], ◌∷◌, none, some, if◌then◌else◌, arith}
use ngxborg.Text.{Text}
use ngxborg.Text.FilePath.{components}
use ngxborg.Machine.Fs.{Node, Fs, path_eq, is_above, put, prune, stat}
use ngxborg.Machine.Fs.Laws.{path_eq_iff, lookup-put, lookup-prune}
use ngxborg.Machine.Error.{ok}
use ngxborg.Machine.World.{World}
use ngxborg.Machine.Os.{os_exists, os_chmod, os_remove_all}

pub stat-put :
    (p q : List Text) (n : Node) (fs : Fs)
    → p ≢ []
    → stat q (put p n fs) ≡ (if path_eq p q then some n else stat q fs)
unfolding stat
stat-put [] q n fs h = absurd (h refl)
stat-put (c ∷ p) [] n fs h = ground (arith, path_eq_iff (c ∷ p) [])
stat-put (c ∷ p) (d ∷ q) n fs h = lookup-put (c ∷ p) (d ∷ q) n fs

pub stat-prune :
    (p q : List Text) (fs : Fs)
    → p ≢ []
    → stat q (prune p fs) ≡ (if is_above p q then none else stat q fs)
unfolding stat is_above
stat-prune [] q fs h = absurd (h refl)
stat-prune (c ∷ p) [] fs h = refl
stat-prune (c ∷ p) (d ∷ q) fs h = lookup-prune (c ∷ p) (d ∷ q) fs

pub os_exists-some :
    (w : World) (path : Text) (n : Node)
    → stat (components path) w.fs ≡ some n
    → os_exists w path ≡ true
unfolding os_exists
os_exists-some w path n e = rw e

pub os_exists-none :
    (w : World) (path : Text) → stat (components path) w.fs ≡ none → os_exists w path ≡ false
unfolding os_exists
os_exists-none w path e = rw e

pub os_chmod-some :
    (path : Text) (mode : ℕ) (w : World) (n : Node)
    → stat (components path) w.fs ≡ some n
    → os_chmod path mode w
      ≡ (record w { fs = put (components path) (record n { mode = mode }) w.fs }, ok tt)
unfolding os_chmod
os_chmod-some path mode w n e = rw e

pub os_remove_all_lem :
    (path : Text) (w : World)
    → components path ≢ []
    → os_remove_all path w ≡ (record w { fs = prune (components path) w.fs }, ok tt)
unfolding os_remove_all
os_remove_all_lem path w h = ground arith
