-- ===== src/Machine/Fs/Found.antt =====
-- What is listed of a directory is there.
use ngxborg.Base.{
  ◌≡◌, refl, subst, true, List, [], ◌∷◌, ◌++◌, some, All, All-append, Option-cases, Bool-cases, inl,
  inr, is_some,
}
use ngxborg.Text.{Text}
use ngxborg.Text.FilePath.Laws.{IsSegment}
use ngxborg.Machine.Fs.{Node, Fs, Entry, path_eq, lookup, below, child, children, sort_entries}
use ngxborg.Machine.Fs.Laws.{below_iff, path_eq_refl}
use ngxborg.Machine.Fs.Names.{sort_entries-All}

-- No name is empty, "." or "..", and none holds a slash.
abbrev pub AreSegments : Fs → Type 0
AreSegments fs = All (λ item. All IsSegment item.0) fs

-- An item of a tree whose names are such, and whose path is in the tree `fs`.
abbrev IsItem : Fs → List Text × Node → Type 0
IsItem fs item = All IsSegment item.0 × (is_some (lookup item.0 fs) ≡ true)

-- The entry of the directory `p` is there.
abbrev pub IsThere : List Text → Fs → Entry → Type 0
IsThere p fs e = IsSegment e.name × (is_some (lookup (p ++ e.name ∷ []) fs) ≡ true)

still_there :
    (q : List Text) (n : Node) (fs items : Fs)
    → All (IsItem fs) items
    → All (IsItem ((q, n) ∷ fs)) items
unfolding lookup
still_there q n fs [] h = tt
still_there q n fs (item ∷ items) h = (
  (h.0.0, elim (Bool-cases (path_eq q item.0)) [ inl e ↦ rw e refl | inr e ↦ rw e h.0.1 ]),
  still_there q n fs items h.1,
)

items_there : (fs : Fs) → AreSegments fs → All (IsItem fs) fs
unfolding lookup
items_there [] h = tt
items_there ((q, n) ∷ fs) h =
    ((h.0, rw (path_eq_refl q) refl), still_there q n fs fs (items_there fs h.1))

below-All : (p r : List Text) → All IsSegment (p ++ r) → All IsSegment r
below-All [] r h = h
below-All (c ∷ p) r h = below-All p r h.1

child-IsThere :
    (p r : List Text) (n : Node) (fs : Fs)
    → All IsSegment r
    → is_some (lookup (p ++ r) fs) ≡ true
    → All (IsThere p fs) (child (some r) n)
child-IsThere p [] n fs h k = tt
child-IsThere p (c ∷ []) n fs h k = ((h.0, k), tt)
child-IsThere p (c ∷ d ∷ r) n fs h k = tt

children-IsThere :
    (p : List Text) (fs items : Fs) → All (IsItem fs) items → All (IsThere p fs) (children p items)
unfolding children
children-IsThere p fs [] h = tt
children-IsThere p fs ((q, n) ∷ items) h = elim (Option-cases (below p q)) [
  | inl e ↦ rw e (children-IsThere p fs items h.1)
  | inr (r, e) ↦
      let at = (below_iff p q r).0 e in
      let item = subst (λ x. IsItem fs (x, n)) at h.0 in
      rw e (
        All-append (IsThere p fs) (child (some r) n) (children p items)
          (child-IsThere p r n fs (below-All p r item.0) item.1) (children-IsThere p fs items h.1))
]

-- What the package `os` lists of a directory.
pub listed-IsThere :
    (p : List Text) (fs : Fs) → AreSegments fs → All (IsThere p fs) (sort_entries (children p fs))
listed-IsThere p fs h =
    sort_entries-All (IsThere p fs) (children p fs) (children-IsThere p fs fs (items_there fs h))
