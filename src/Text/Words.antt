-- ===== src/Text/Words.antt =====
-- Laws of `Fields`, `TrimSpace` and `Join`: which words a text holds.
use ngxborg.Base.{
  ℕ, ◌≡◌, ◌≢◌, refl, ap, ◌∙◌, true, false, List, [], ◌∷◌, ◌++◌, arith, All, is_nil, append-nil,
  append_assoc, inl, inr, Bool-cases, ◌&&◌, All-append,
}
use ngxborg.Text.{
  Text, is_space, trim_left, trim_right, trim_space, flush, fields_from, fields, join,
}

-- No character of the text is white space.
abbrev pub NoSpace : Text → Type 0
NoSpace = All λ c. is_space c ≡ false

-- What `Fields` returns pieces of: not empty, no white space.
abbrev pub IsWord : Text → Type 0
IsWord w = (w ≢ []) × NoSpace w

pub fields_from-word :
    (acc w rest : Text) → NoSpace w → fields_from acc (w ++ rest) ≡ fields_from (acc ++ w) rest
unfolding fields_from
fields_from-word acc [] rest h = rw append-nil
fields_from-word acc (c ∷ w) rest h =
    rw (h.0) (fields_from-word (acc ++ c ∷ []) w rest h.1 ∙ rw append_assoc)

-- A word, then a white space: `Fields` takes the word off.
pub fields-word :
    (w rest : Text) (c : ℕ)
    → IsWord w
    → is_space c ≡ true
    → fields (w ++ c ∷ rest) ≡ w ∷ fields rest
unfolding fields fields_from
fields-word [] rest c h e = absurd (h.0 refl)
fields-word (a ∷ w) rest c h e = fields_from-word [] (a ∷ w) (c ∷ rest) h.1 ∙ rw e

pub fields-word_end : (w : Text) → IsWord w → fields w ≡ w ∷ []
unfolding fields fields_from
fields-word_end [] h = absurd (h.0 refl)
fields-word_end (a ∷ w) h = rw append-nil at (fields_from-word [] (a ∷ w) [] h.1)

-- `Fields` undoes `Join` with a blank.
pub fields-join : (ws : List Text) → All IsWord ws → fields (join (b' ' ∷ []) ws) ≡ ws
unfolding join
fields-join [] h = unfold fields fields_from in refl
fields-join (w ∷ []) h = fields-word_end w h.0
fields-join (w ∷ v ∷ ws) h =
    fields-word w (join (b' ' ∷ []) (v ∷ ws)) b' ' h.0 (unfold is_space in refl)
    ∙ ap (◌∷◌ w) (fields-join (v ∷ ws) h.1)

flush-IsWord : (w : Text) → NoSpace w → All IsWord (flush w)
flush-IsWord [] h = tt
flush-IsWord (c ∷ w) h = (((λ e. cc), h), tt)

fields_from-IsWord : (acc s : Text) → NoSpace acc → All IsWord (fields_from acc s)
unfolding fields_from
fields_from-IsWord acc [] h = flush-IsWord acc h
fields_from-IsWord acc (c ∷ s) h = elim (Bool-cases (is_space c)) [
  | inl e ↦ rw e (All-append IsWord (flush acc) _ (flush-IsWord acc h) (fields_from-IsWord [] s tt))
  | inr e ↦ rw e (
      fields_from-IsWord (acc ++ c ∷ []) s
        (All-append (λ c. is_space c ≡ false) acc (c ∷ []) h (e, tt)))
]

-- Every piece that `Fields` returns is a word.
pub fields-IsWord : (s : Text) → All IsWord (fields s)
unfolding fields
fields-IsWord s = fields_from-IsWord [] s tt

fields-trim_left : (s : Text) → fields (trim_left s) ≡ fields s
unfolding fields fields_from trim_left
fields-trim_left [] = refl
fields-trim_left (c ∷ s) = elim (Bool-cases (is_space c)) [
  | inl e ↦ rw e (fields-trim_left s)
  | inr e ↦ rw e (rw e refl)
]

is_nil→eq : (s : Text) → is_nil s ≡ true → s ≡ []
is_nil→eq s h = ground arith

fields_from-trim_right : (s acc : Text) → fields_from acc (trim_right s) ≡ fields_from acc s
unfolding fields_from trim_right
fields_from-trim_right [] acc = refl
fields_from-trim_right (c ∷ s) acc = elim (Bool-cases (is_space c && is_nil (trim_right s))) [
  | inl e ↦ rw e (ground (arith, fields_from-trim_right s [], append-nil (flush acc)))
  | inr e ↦
      rw e (ground (arith, fields_from-trim_right s [], fields_from-trim_right s (acc ++ c ∷ [])))
]

-- Trimming a text does not change its words.
pub fields-trim_space : (s : Text) → fields (trim_space s) ≡ fields s
unfolding trim_space
fields-trim_space s =
    unfold fields in (fields_from-trim_right (trim_left s) []) ∙ fields-trim_left s

pub trim_right-word : (a w : Text) → IsWord w → trim_right (a ++ w) ≡ a ++ w
unfolding trim_right
trim_right-word [] [] h = absurd (h.0 refl)
trim_right-word [] (c ∷ []) h = rw (h.1.0)
trim_right-word [] (c ∷ d ∷ w) h = ground (arith, trim_right-word [] (d ∷ w) ((λ e. cc), h.1.1))
trim_right-word (c ∷ a) w h = rw (trim_right-word a w h) (ground (arith, h.0, append_ne a w h.0))
  where
    append_ne : (a w : Text) → w ≢ [] → is_nil (a ++ w) ≡ false
    append_ne [] [] h = absurd (h refl)
    append_ne [] (c ∷ w) h = refl
    append_ne (c ∷ a) w h = refl

-- A text that begins with no white space and ends in a word stays as it is.
pub trim_space-word :
    (c : ℕ) (a w : Text) → is_space c ≡ false → IsWord w → trim_space (c ∷ (a ++ w)) ≡ c ∷ (a ++ w)
unfolding trim_space trim_left
trim_space-word c a w e h = rw e (trim_right-word (c ∷ a) w h)

pub trim_space_word : (w : Text) → IsWord w → trim_space w ≡ w
unfolding trim_space trim_left
trim_space_word [] h = absurd (h.0 refl)
trim_space_word (c ∷ w) h = rw (h.1.0) (trim_right-word [] (c ∷ w) h)

-- One blank in front of a word is trimmed.
pub trim_space-blank : (w : Text) → IsWord w → trim_space (b' ' ∷ w) ≡ w
unfolding trim_space trim_left is_space
trim_space-blank w h = trim_space_word w h
