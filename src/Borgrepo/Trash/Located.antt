-- ===== src/Borgrepo/Trash/Located.antt =====
-- Where a deleted repository goes.
use ngxborg.Base.{
  ℕ, ◌%◌, ◌/◌, ◌≡◌, ◌≢◌, refl, ap, ◌∙◌, true, false, List, [], ◌∷◌, ◌++◌, arith, ltb, Bool-cases,
  inl, inr,
}
use ngxborg.Text.{Text, codes, text_eq, has_prefix, split, split_from, join, contains_char}
use ngxborg.Text.Search.{split-append, split_one, contains_char-append, contains_char_none}
use ngxborg.Text.Decimal.{print_nat, itoa, pos}
use ngxborg.Text.Decimal.Laws.{All-itoa}
use ngxborg.Text.FilePath.{slash, components, clean, join_path, clean_from, clean_step, pops}
use ngxborg.Text.FilePath.Laws.{IsSegment, clean_step-IsSegment, clean_from-append}
use ngxborg.Borgrepo.Name.{valid_name, is_alnum}
use ngxborg.Borgrepo.Place.{trash_base}
use ngxborg.Borgrepo.Place.Confined.{valid_name-IsSegment}
use ngxborg.Borgrepo.Stamp.{stamp, date_of_days, two, year_digits}
use ngxborg.Borgrepo.Trash.{separator, trash_name}

no_slash_two : (n : ℕ) → contains_char b'/' (two n) ≡ false
unfolding contains_char
no_slash_two n = ground arith

no_slash_append :
    (a b : Text)
    → contains_char b'/' a ≡ false
    → contains_char b'/' b ≡ false
    → contains_char b'/' (a ++ b) ≡ false
no_slash_append = contains_char-append b'/'

no_slash_number : (n : ℕ) → contains_char b'/' (print_nat n) ≡ false
unfolding itoa
no_slash_number n =
    contains_char_none b'/' (print_nat n)
      (All-itoa (λ c. b'/' ≢ c) (λ d h. λ e. ground (arith, h, e)) (λ e. ground (arith, e)) (pos n))

no_slash_year : (y : ℕ) → contains_char b'/' (year_digits y) ≡ false
no_slash_year y = elim (Bool-cases (ltb y 10000)) [
  | inl e ↦ rw e (no_slash_append (two (y / 100)) (two y) (no_slash_two (y / 100)) (no_slash_two y))
  | inr e ↦ rw e (no_slash_number y)
]

no_slash_stamp : (now : ℕ) → contains_char b'/' (stamp now) ≡ false
unfolding stamp
no_slash_stamp now =
    let d = date_of_days (now / 86400) in
    let s = now % 86400 in
    let time =
      no_slash_append (two (s / 60 % 60)) (two (s % 60)) (no_slash_two (s / 60 % 60))
        (no_slash_two (s % 60)) in
    let clock = no_slash_append (two (s / 3600)) _ (no_slash_two (s / 3600)) time in
    let dash = no_slash_append (b'-' ∷ []) _ (unfold contains_char in refl) clock in
    let day = no_slash_append (two d.day) _ (no_slash_two d.day) dash in
    let month = no_slash_append (two d.month) _ (no_slash_two d.month) day in
    no_slash_append (year_digits d.year) _ (no_slash_year d.year) month

no_slash_name :
    (t n : Text) (now : ℕ)
    → contains_char b'/' t ≡ false
    → contains_char b'/' n ≡ false
    → contains_char b'/' (trash_name t n now) ≡ false
unfolding trash_name
no_slash_name t n now ht hn = no_slash_append t _ ht (
    no_slash_append separator _ (unfold contains_char in refl) (
      no_slash_append n _ hn
        (no_slash_append separator _ (unfold contains_char in refl) (no_slash_stamp now))))

pub trash_name-IsSegment :
    (t n : Text) (now : ℕ)
    → valid_name t ≡ true
    → valid_name n ≡ true
    → IsSegment (trash_name t n now)
unfolding valid_name is_alnum
trash_name-IsSegment [] n now ht hn = absurd (ground arith)
trash_name-IsSegment (c ∷ t) n now ht hn = record {
  no_slash =
      no_slash_name (c ∷ t) n now (valid_name-IsSegment (c ∷ t) ht).no_slash
        (valid_name-IsSegment n hn).no_slash;
  named = λ e. unfold trash_name in cc;
  not_dot = λ e. unfold trash_name in ground arith;
  not_dots = λ e. unfold trash_name in ground arith;
}

abbrev pub trash_components : List Text
trash_components = codes "var" ∷ codes "lib" ∷ codes "ngxborg" ∷ codes ".trash" ∷ []

abbrev trash_reversed : List Text
trash_reversed = codes ".trash" ∷ codes "ngxborg" ∷ codes "lib" ∷ codes "var" ∷ []

split-trash_base : clean_from true [] (split b'/' trash_base) ≡ trash_reversed
unfolding trash_base split split_from clean_from clean_step pops text_eq
split-trash_base = refl

rooted : (rest : Text) → has_prefix (trash_base ++ rest) slash ≡ true
unfolding trash_base has_prefix
rooted rest = refl

components-below :
    (name : Text)
    → IsSegment name
    → components (trash_base ++ b'/' ∷ name) ≡ trash_components ++ name ∷ []
unfolding components
components-below name h =
    rw
      (
        rooted (b'/' ∷ name),
        split-append b'/' trash_base name,
        clean_from-append,
        split-trash_base,
        split_one b'/' name h.no_slash,
      )
      (unfold clean_from in rw (clean_step-IsSegment true trash_reversed name h))

join_path-trash :
    (name : Text)
    → name ≢ []
    → join_path (trash_base ∷ name ∷ []) ≡ clean (trash_base ++ b'/' ∷ name)
unfolding join_path join trash_base
join_path-trash [] h = absurd (h refl)
join_path-trash (c ∷ name) h = refl

clean-trash_base :
    (rest : Text)
    → clean (trash_base ++ b'/' ∷ rest) ≡ b'/' ∷ join slash (components (trash_base ++ b'/' ∷ rest))
unfolding clean
clean-trash_base rest = rw (rooted (b'/' ∷ rest))

joined :
    (name : Text) → b'/' ∷ join slash (trash_components ++ name ∷ []) ≡ trash_base ++ b'/' ∷ name
unfolding join trash_base
joined name = refl

-- The components of the path of an entry of the trash.
pub components-join_path :
    (name : Text)
    → IsSegment name
    → components (join_path (trash_base ∷ name ∷ [])) ≡ trash_components ++ name ∷ []
components-join_path name h =
    ap components (
      join_path-trash name h.named
      ∙ clean-trash_base name
      ∙ ap (λ cs. b'/' ∷ join slash cs) (components-below name h)
      ∙ joined name)
    ∙ components-below name h
