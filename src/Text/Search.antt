-- ===== src/Text/Search.antt =====
-- Laws of comparing and searching texts.
use ngxborg.Base.{
  ℕ, ◌+◌, ◌≡◌, ◌≢◌, ◌↔◌, refl, ap, ◌∙◌, true, false, List, [], ◌∷◌, ◌++◌, none, some, arith, length,
  inl, inr, All, Bool-cases, append-nil, append_assoc,
}
use ngxborg.Text.{Text, text_eq, has_prefix, index, contains_char, split, split_from, join}

pub text_eq_iff : (s t : Text) → (text_eq s t ≡ true) ↔ (s ≡ t)
unfolding text_eq
text_eq_iff (x ∷ s) (y ∷ t) = ground (arith, text_eq_iff s t)
text_eq_iff _ _ = ground arith

pub text_eq_refl : (s : Text) → text_eq s s ≡ true
text_eq_refl s = (text_eq_iff s s).1 refl

pub text_eq_ne : (s t : Text) → s ≢ t → text_eq s t ≡ false
text_eq_ne s t h = elim (Bool-cases (text_eq s t)) [
  | inl e ↦ absurd (h ((text_eq_iff s t).0 e))
  | inr e ↦ e
]

pub has_prefix-append : (p s : Text) → has_prefix (p ++ s) p ≡ true
unfolding has_prefix
has_prefix-append [] s = refl
has_prefix-append (c ∷ p) s = ground (arith, has_prefix-append p s)

-- What starts with a prefix is the prefix and a rest.
pub has_prefix_splits : (s p : Text) → has_prefix s p ≡ true → (r : Text) × (s ≡ p ++ r)
unfolding has_prefix
has_prefix_splits s [] h = (s, refl)
has_prefix_splits [] (c ∷ p) h = absurd (ground arith)
has_prefix_splits (d ∷ s) (c ∷ p) h =
    let rest = has_prefix_splits s p (ground arith) in (rest.0, ground (arith, rest.1))

-- A text that does not hold the first character of `sub` is skipped by a search for it.
pub index-skip :
    (a b sub : Text) (c : ℕ)
    → contains_char c a ≡ false
    → index (a ++ b) (c ∷ sub)
      ≡ elim (index b (c ∷ sub)) [ none ↦ none | some i ↦ some (length a + i) ]
unfolding index contains_char
index-skip [] b sub c h = ground arith
index-skip (d ∷ a) b sub c h = ground (arith, index-skip a b sub c)

-- So a search ends behind such a text, where `sub` stands.
pub index-append :
    (a sub b : Text) (c : ℕ)
    → contains_char c a ≡ false
    → index (a ++ ((c ∷ sub) ++ b)) (c ∷ sub) ≡ some (length a)
unfolding index
index-append a sub b c h =
    ground (arith, index-skip a ((c ∷ sub) ++ b) sub c, has_prefix-append (c ∷ sub) b)

pub index-none : (a sub : Text) (c : ℕ) → contains_char c a ≡ false → index a (c ∷ sub) ≡ none
unfolding index contains_char has_prefix
index-none [] sub c h = refl
index-none (d ∷ a) sub c h = ground (arith, index-none a sub c)

pub contains_char-append :
    (c : ℕ) (a b : Text)
    → contains_char c a ≡ false
    → contains_char c b ≡ false
    → contains_char c (a ++ b) ≡ false
unfolding contains_char
contains_char-append c [] b h k = k
contains_char-append c (d ∷ a) b h k = ground (arith, contains_char-append c a b)

split_from-append :
    (sep : ℕ) (piece a b : Text)
    → split_from sep piece (a ++ sep ∷ b) ≡ split_from sep piece a ++ split sep b
unfolding split split_from
split_from-append sep piece [] b = ground arith
split_from-append sep piece (c ∷ a) b =
    ground (arith, split_from-append sep [] a b, split_from-append sep (piece ++ c ∷ []) a b)

-- A separator ends a piece, whatever stands before it.
pub split-append : (sep : ℕ) (a b : Text) → split sep (a ++ sep ∷ b) ≡ split sep a ++ split sep b
unfolding split
split-append sep a b = split_from-append sep [] a b

split_from_one :
    (sep : ℕ) (piece a : Text)
    → contains_char sep a ≡ false
    → split_from sep piece a ≡ (piece ++ a) ∷ []
unfolding split_from contains_char
split_from_one sep piece [] h = rw append-nil
split_from_one sep piece (c ∷ a) h =
    ground (arith, split_from_one sep (piece ++ c ∷ []) a, append_assoc piece (c ∷ []) a)

pub split_one : (sep : ℕ) (a : Text) → contains_char sep a ≡ false → split sep a ≡ a ∷ []
unfolding split
split_one sep a h = split_from_one sep [] a h

pub contains_char_none : (c : ℕ) (s : Text) → All (λ d. c ≢ d) s → contains_char c s ≡ false
unfolding contains_char
contains_char_none c [] h = refl
contains_char_none c (d ∷ s) h = ground (arith, contains_char_none c s h.1)

-- A list of texts without the separator, joined by it, is split into the same list.
pub split-join :
    (sep : ℕ) (t : Text) (ts : List Text)
    → All (λ s. contains_char sep s ≡ false) (t ∷ ts)
    → split sep (join (sep ∷ []) (t ∷ ts)) ≡ t ∷ ts
unfolding join
split-join sep t [] h = split_one sep t h.0
split-join sep t (u ∷ ts) h =
    split-append sep t (join (sep ∷ []) (u ∷ ts))
    ∙ ap (λ a. a ++ split sep (join (sep ∷ []) (u ∷ ts))) (split_one sep t h.0)
    ∙ ap (◌∷◌ t) (split-join sep u ts h.1)
