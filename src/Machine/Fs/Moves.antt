-- ===== src/Machine/Fs/Moves.antt =====
-- What a move leaves where.
use ngxborg.Base.{
  ◌≡◌, refl, false, List, [], ◌∷◌, ◌++◌, none, if◌then◌else◌, arith, Option-cases, inl, inr,
  is_some,
}
use ngxborg.Text.{Text}
use ngxborg.Text.Search.{text_eq_refl}
use ngxborg.Machine.Fs.{Fs, path_eq, is_above, below, lookup, move}
use ngxborg.Machine.Fs.Laws.{path_eq_iff, below_iff, below-append, is_above-append}

path_eq-append : (p r s : List Text) → path_eq (p ++ r) (p ++ s) ≡ path_eq r s
unfolding path_eq
path_eq-append [] r s = refl
path_eq-append (a ∷ p) r s = ground (arith, text_eq_refl a, path_eq-append p r s)

is_above-below : (p q : List Text) → is_above p q ≡ is_some (below p q)
unfolding is_above below
is_above-below [] q = refl
is_above-below (a ∷ p) [] = refl
is_above-below (a ∷ p) (b ∷ q) = ground (arith, is_above-below p q)

-- Below a free target stands what stood below the source.
pub lookup-move :
    (from to r : List Text) (fs : Fs)
    → lookup (to ++ r) fs ≡ none
    → lookup (to ++ r) (move from to fs) ≡ lookup (from ++ r) fs
unfolding lookup move
lookup-move from to r [] h = refl
lookup-move from to r ((q, n) ∷ fs) h = elim (Option-cases (below from q)) [
  | inl e ↦
      ground (arith, e, below-append from r, path_eq_iff q (from ++ r), lookup-move from to r fs)
  | inr (s, e) ↦ ground (
    arith,
    e,
    below_iff from q s,
    path_eq-append from s r,
    path_eq-append to s r,
    lookup-move from to r fs,
  )
]

-- Elsewhere, what was below the source is gone, and the rest stays.
pub lookup-move_elsewhere :
    (from to x : List Text) (fs : Fs)
    → is_above to x ≡ false
    → lookup x (move from to fs) ≡ (if is_above from x then none else lookup x fs)
unfolding lookup move
lookup-move_elsewhere from to x [] h = ground arith
lookup-move_elsewhere from to x ((q, n) ∷ fs) h = elim (Option-cases (below from q)) [
  | inl e ↦
      ground
        (arith, e, path_eq_iff q x, is_above-below from q, lookup-move_elsewhere from to x fs h)
  | inr (s, e) ↦ ground (
    arith,
    e,
    path_eq_iff q x,
    is_above-below from q,
    path_eq_iff (to ++ s) x,
    is_above-append to s,
    lookup-move_elsewhere from to x fs h,
  )
]
