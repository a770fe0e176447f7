-- ===== src/Machine/Fs.antt =====
-- A file tree as a finite map from absolute paths, given by their components, to files and
-- directories. The process is root, so permission bits are data and refuse nothing. There are no
-- symbolic links, and a directory's modification time is that of its own last creation.
pub mod Laws
pub mod Moves
pub mod Names
pub mod Found
use ngxborg.Base.{
  ℕ, Bool, true, false, not, ◌&&◌, ◌||◌, List, [], ◌∷◌, ◌++◌, Option, none, some, if◌then◌else◌,
  is_nil, is_some, keep_if,
}
use ngxborg.Text.{Text, text_eq, text_lt}

pub record Node : Type 0 where
  pub is_dir : Bool
  pub mode : ℕ
  pub uid : ℕ
  pub gid : ℕ
  pub mtime : ℕ
  pub content : Text

abbrev pub Fs : Type 0
Fs = List (List Text × Node)

unfoldable pub path_eq : List Text → List Text → Bool
path_eq [] [] = true
path_eq (a ∷ p) (b ∷ q) = text_eq a b && path_eq p q
path_eq _ _ = false

-- `p` is `q`, or a directory above it.
unfoldable pub is_above : List Text → List Text → Bool
is_above [] q = true
is_above (a ∷ p) [] = false
is_above (a ∷ p) (b ∷ q) = text_eq a b && is_above p q

unfoldable pub lookup : List Text → Fs → Option Node
unfolding path_eq
lookup p [] = none
lookup p ((q, n) ∷ fs) = if path_eq q p then some n else lookup p fs

unfoldable pub put : List Text → Node → Fs → Fs
unfolding path_eq
put p n [] = (p, n) ∷ []
put p n ((q, m) ∷ fs) = if path_eq q p then (p, n) ∷ fs else (q, m) ∷ put p n fs

-- All but `p` and what is below it.
unfoldable pub prune : List Text → Fs → Fs
unfolding is_above
prune p [] = []
prune p ((q, n) ∷ fs) = let rest = prune p fs in if is_above p q then rest else (q, n) ∷ rest

-- What of `q` lies below `p`.
unfoldable pub below : List Text → List Text → Option (List Text)
below [] q = some q
below (a ∷ p) [] = none
below (a ∷ p) (b ∷ q) = let rest = below p q in if text_eq a b then rest else none

abbrev moved_to : List Text → List Text → Option (List Text) → List Text
moved_to q to none = q
moved_to q to (some r) = to ++ r

-- `from` and what is below it, put at `to` in its place.
unfoldable pub move : List Text → List Text → Fs → Fs
unfolding below
move from to [] = []
move from to ((q, n) ∷ fs) = (moved_to q to (below from q), n) ∷ move from to fs

pub record Entry : Type 0 where
  pub name : Text
  pub is_dir : Bool

abbrev child : Option (List Text) → Node → List Entry
child none n = []
child (some []) n = []
child (some (c ∷ [])) n = record { name = c; is_dir = n.is_dir } ∷ []
child (some (c ∷ d ∷ r)) n = []

unfoldable pub children : List Text → Fs → List Entry
unfolding below
children p [] = []
children p ((q, n) ∷ fs) = child (below p q) n ++ children p fs

unfoldable pub insert_entry : Entry → List Entry → List Entry
insert_entry e [] = e ∷ []
insert_entry e (f ∷ fs) =
    let rest = insert_entry e fs in if text_lt f.name e.name then f ∷ rest else e ∷ f ∷ fs

-- os.ReadDir returns the entries sorted by their names.
unfoldable pub sort_entries : List Entry → List Entry
unfolding insert_entry
sort_entries [] = []
sort_entries (e ∷ es) = insert_entry e (sort_entries es)

-- The root of the tree is always there.
unfoldable pub stat : List Text → Fs → Option Node
unfolding lookup
stat [] fs =
    some (record { is_dir = true; mode = 0o755; uid = 0; gid = 0; mtime = 0; content = [] })
stat (c ∷ p) fs = lookup (c ∷ p) fs

abbrev pub parent_of : List Text → List Text
parent_of [] = []
parent_of (c ∷ []) = []
parent_of (c ∷ d ∷ p) = c ∷ parent_of (d ∷ p)
