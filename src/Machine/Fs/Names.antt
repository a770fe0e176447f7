-- ===== src/Machine/Fs/Names.antt =====
-- Names in a file tree.
use ngxborg.Base.{
  ◌≡◌, subst, false, List, [], ◌∷◌, ◌++◌, some, All, All-append, Option-cases, Bool-cases, inl, inr,
}
use ngxborg.Text.{Text, text_lt, contains_char}
use ngxborg.Machine.Fs.{Node, Fs, Entry, below, child, children, insert_entry, sort_entries}
use ngxborg.Machine.Fs.Laws.{below_iff}

abbrev pub IsName : Text → Type 0
IsName c = contains_char b'/' c ≡ false

-- As in every file system, no name holds a slash.
abbrev pub IsTree : Fs → Type 0
IsTree fs = All (λ item. All IsName item.0) fs

abbrev pub AreNamed : List Entry → Type 0
AreNamed es = All (λ e. IsName e.name) es

below-names : (p r : List Text) → All IsName (p ++ r) → All IsName r
below-names [] r h = h
below-names (c ∷ p) r h = below-names p r h.1

child-AreNamed : (r : List Text) (n : Node) → All IsName r → AreNamed (child (some r) n)
child-AreNamed [] n h = tt
child-AreNamed (c ∷ []) n h = (h.0, tt)
child-AreNamed (c ∷ d ∷ r) n h = tt

children-AreNamed : (p : List Text) (fs : Fs) → IsTree fs → AreNamed (children p fs)
unfolding children
children-AreNamed p [] h = tt
children-AreNamed p ((q, n) ∷ fs) h = elim (Option-cases (below p q)) [
  | inl e ↦ rw e (children-AreNamed p fs h.1)
  | inr (r, e) ↦ rw e (
      All-append (λ x. IsName x.name) (child (some r) n) (children p fs)
        (child-AreNamed r n (below-names p r (subst (All IsName) ((below_iff p q r).0 e) h.0)))
        (children-AreNamed p fs h.1))
]

-- What holds of every entry holds of every entry of the sorted list.
insert_entry-All :
    (P : Entry → Type 0) (e : Entry) (es : List Entry) → P e → All P es → All P (insert_entry e es)
unfolding insert_entry
insert_entry-All P e [] h k = (h, tt)
insert_entry-All P e (f ∷ fs) h k = elim (Bool-cases (text_lt f.name e.name)) [
  | inl b ↦ rw b (k.0, insert_entry-All P e fs h k.1)
  | inr b ↦ rw b (h, k)
]

pub sort_entries-All : (P : Entry → Type 0) (es : List Entry) → All P es → All P (sort_entries es)
unfolding sort_entries
sort_entries-All P [] h = tt
sort_entries-All P (e ∷ es) h =
    insert_entry-All P e (sort_entries es) h.0 (sort_entries-All P es h.1)

-- What the package `os` lists of a directory.
pub listed-AreNamed :
    (p : List Text) (fs : Fs) → IsTree fs → AreNamed (sort_entries (children p fs))
listed-AreNamed p fs h =
    sort_entries-All (λ e. IsName e.name) (children p fs) (children-AreNamed p fs h)
