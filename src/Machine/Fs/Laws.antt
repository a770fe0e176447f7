-- ===== src/Machine/Fs/Laws.antt =====
-- Laws of the file tree: what a write, a removal or a move leaves where.
use ngxborg.Base.{
  ◌≡◌, ◌↔◌, refl, true, false, List, [], ◌∷◌, ◌++◌, none, some, if◌then◌else◌, arith,
}
use ngxborg.Text.{Text}
use ngxborg.Text.Search.{text_eq_iff, text_eq_refl}
use ngxborg.Machine.Fs.{Node, Fs, path_eq, is_above, lookup, put, prune, below}

pub path_eq_iff : (p q : List Text) → (path_eq p q ≡ true) ↔ (p ≡ q)
unfolding path_eq
path_eq_iff (a ∷ p) (b ∷ q) = ground (arith, text_eq_iff a b, path_eq_iff p q)
path_eq_iff _ _ = ground arith

pub path_eq_refl : (p : List Text) → path_eq p p ≡ true
path_eq_refl p = (path_eq_iff p p).1 refl

pub lookup-put :
    (p q : List Text) (n : Node) (fs : Fs)
    → lookup q (put p n fs) ≡ (if path_eq p q then some n else lookup q fs)
unfolding lookup put
lookup-put p q n [] = refl
lookup-put p q n ((r, m) ∷ fs) =
    ground (arith, path_eq_iff p q, path_eq_iff r p, path_eq_iff r q, lookup-put p q n fs)

pub is_above_refl : (p : List Text) → is_above p p ≡ true
unfolding is_above
is_above_refl [] = refl
is_above_refl (a ∷ p) = ground (arith, text_eq_refl a, is_above_refl p)

pub is_above-append : (p r : List Text) → is_above p (p ++ r) ≡ true
unfolding is_above
is_above-append [] r = refl
is_above-append (a ∷ p) r = ground (arith, text_eq_refl a, is_above-append p r)

pub lookup-prune :
    (p q : List Text) (fs : Fs)
    → lookup q (prune p fs) ≡ (if is_above p q then none else lookup q fs)
unfolding lookup prune
lookup-prune p q [] = ground arith
lookup-prune p q ((r, m) ∷ fs) = ground (arith, path_eq_iff r q, lookup-prune p q fs)

pub below-append : (p r : List Text) → below p (p ++ r) ≡ some r
unfolding below
below-append [] r = refl
below-append (a ∷ p) r = ground (arith, text_eq_refl a, below-append p r)

pub below_iff : (p q : List Text) → (r : List Text) → (below p q ≡ some r) ↔ (q ≡ p ++ r)
unfolding below
below_iff [] q r = ground arith
below_iff (a ∷ p) [] r = ground arith
below_iff (a ∷ p) (b ∷ q) r = ground (arith, text_eq_iff a b, below_iff p q r)

-- A path that is not above `q` has none below it that is.
pub is_above-longer : (p r q : List Text) → is_above p q ≡ false → is_above (p ++ r) q ≡ false
unfolding is_above
is_above-longer [] r q h = absurd (ground (arith, h))
is_above-longer (a ∷ p) r [] h = refl
is_above-longer (a ∷ p) r (b ∷ q) h = ground (arith, h, is_above-longer p r q)

pub path_eq-longer : (p r q : List Text) → is_above p q ≡ false → path_eq (p ++ r) q ≡ false
unfolding is_above path_eq
path_eq-longer [] r q h = absurd (ground (arith, h))
path_eq-longer (a ∷ p) r [] h = refl
path_eq-longer (a ∷ p) r (b ∷ q) h = ground (arith, h, path_eq-longer p r q)

-- Nor is a path apart from `p` above one below `p`.
pub is_above-apart :
    (q p r : List Text) → is_above p q ≡ false → is_above q p ≡ false → is_above q (p ++ r) ≡ false
unfolding is_above
is_above-apart [] p r h k = absurd (ground (arith, k))
is_above-apart (b ∷ q) [] r h k = absurd (ground (arith, h))
is_above-apart (b ∷ q) (a ∷ p) r h k =
    ground (arith, text_eq_iff a b, text_eq_iff b a, h, k, is_above-apart q p r)
