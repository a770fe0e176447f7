-- ===== src/Text/FilePath/Standard.antt =====
-- Paths in standard form: a slash before every component.
use ngxborg.Base.{
  ◌≡◌, refl, ap, ◌∙◌, true, false, List, [], ◌∷◌, ◌++◌, append_assoc, append-nil, All,
}
use ngxborg.Text.{Text, has_prefix, contains_char, split, join}
use ngxborg.Text.Search.{split-append, split_one, split-join}
use ngxborg.Text.FilePath.{
  slash, components, clean, clean_from, clean_step, reverse_onto, join_path, dir_of,
}
use ngxborg.Text.FilePath.Laws.{IsSegment, clean_step-IsSegment}

abbrev pub path_of : List Text → Text
path_of cs = b'/' ∷ join slash cs

segments-no_slash : (cs : List Text) → All IsSegment cs → All (λ c. contains_char b'/' c ≡ false) cs
segments-no_slash [] h = tt
segments-no_slash (c ∷ cs) h = (h.0.no_slash, segments-no_slash cs h.1)

clean_from-segments :
    (done cs : List Text) → All IsSegment cs → clean_from true done cs ≡ reverse_onto done cs
unfolding clean_from
clean_from-segments done [] h = refl
clean_from-segments done (c ∷ cs) h =
    rw (clean_step-IsSegment true done c h.0) (clean_from-segments (c ∷ done) cs h.1)

reverse_twice :
    (out acc cs : List Text) → reverse_onto out (reverse_onto acc cs) ≡ reverse_onto (cs ++ out) acc
reverse_twice out acc [] = refl
reverse_twice out acc (c ∷ cs) = reverse_twice out (c ∷ acc) cs

split-path_of :
    (c : Text) (cs : List Text)
    → All IsSegment (c ∷ cs)
    → split b'/' (path_of (c ∷ cs)) ≡ [] ∷ c ∷ cs
split-path_of c cs h =
    split-append b'/' [] (join slash (c ∷ cs))
    ∙ ap (λ a. a ++ split b'/' (join slash (c ∷ cs)))
        (split_one b'/' [] (unfold contains_char in refl))
    ∙ ap (◌∷◌ []) (split-join b'/' c cs (segments-no_slash (c ∷ cs) h))

rooted : (cs : List Text) → has_prefix (path_of cs) slash ≡ true
unfolding has_prefix
rooted cs = refl

pub components-path_of :
    (c : Text) (cs : List Text) → All IsSegment (c ∷ cs) → components (path_of (c ∷ cs)) ≡ c ∷ cs
unfolding components clean_from clean_step
components-path_of c cs h =
    rw (rooted (c ∷ cs), split-path_of c cs h)
      (ap (reverse_onto []) (clean_from-segments [] (c ∷ cs) h)
        ∙ reverse_twice [] [] (c ∷ cs)
        ∙ append-nil (c ∷ cs))

join-snoc :
    (c : Text) (cs : List Text) (d : Text)
    → join slash (c ∷ cs) ++ b'/' ∷ d ≡ join slash (c ∷ cs ++ d ∷ [])
unfolding join
join-snoc c [] d = refl
join-snoc c (e ∷ cs) d =
    append_assoc c (b'/' ∷ join slash (e ∷ cs)) (b'/' ∷ d)
    ∙ ap (λ x. c ++ b'/' ∷ x) (join-snoc e cs d)

join-suffix :
    (cs : List Text) (d s : Text)
    → join slash (cs ++ d ∷ []) ++ s ≡ join slash (cs ++ (d ++ s) ∷ [])
unfolding join
join-suffix [] d s = refl
join-suffix (c ∷ []) d s = append_assoc c (b'/' ∷ d) s
join-suffix (c ∷ e ∷ cs) d s =
    append_assoc c (b'/' ∷ join slash (e ∷ cs ++ d ∷ [])) s
    ∙ ap (λ x. c ++ b'/' ∷ x) (join-suffix (e ∷ cs) d s)

-- A suffix of a path is one of its last component.
pub path_of-suffix :
    (cs : List Text) (d s : Text) → path_of (cs ++ d ∷ []) ++ s ≡ path_of (cs ++ (d ++ s) ∷ [])
path_of-suffix cs d s = ap (λ x. b'/' ∷ x) (join-suffix cs d s)

pub segments-snoc :
    (cs : List Text) (d : Text) → All IsSegment cs → IsSegment d → All IsSegment (cs ++ d ∷ [])
segments-snoc [] d h k = (k, tt)
segments-snoc (c ∷ cs) d h k = (h.0, segments-snoc cs d h.1 k)

clean-path_of :
    (c : Text) (cs : List Text)
    → All IsSegment (c ∷ cs)
    → clean (path_of (c ∷ cs)) ≡ path_of (c ∷ cs)
unfolding clean
clean-path_of c cs h = rw (rooted (c ∷ cs), components-path_of c cs h) refl

pub join_path-path_of :
    (c : Text) (cs : List Text) (d : Text)
    → All IsSegment (c ∷ cs)
    → IsSegment d
    → join_path (path_of (c ∷ cs) ∷ d ∷ []) ≡ path_of (c ∷ cs ++ d ∷ [])
unfolding join_path join
join_path-path_of c cs [] h k = absurd (k.named refl)
join_path-path_of c cs (x ∷ d) h k =
    ap clean (ap (λ p. b'/' ∷ p) (join-snoc c cs (x ∷ d)))
    ∙ clean-path_of c (cs ++ (x ∷ d) ∷ []) (segments-snoc (c ∷ cs) (x ∷ d) h k)

reverse-snoc :
    (out cs : List Text) (d : Text) → reverse_onto out (cs ++ d ∷ []) ≡ d ∷ reverse_onto out cs
reverse-snoc out [] d = refl
reverse-snoc out (c ∷ cs) d = reverse-snoc (c ∷ out) cs d

pub dir_of-path_of :
    (c : Text) (cs : List Text) (d : Text)
    → All IsSegment (c ∷ cs)
    → IsSegment d
    → dir_of (path_of (c ∷ cs ++ d ∷ [])) ≡ path_of (c ∷ cs)
unfolding dir_of
dir_of-path_of c cs d h k =
    rw
      (
        rooted (c ∷ cs ++ d ∷ []),
        components-path_of c (cs ++ d ∷ []) (segments-snoc (c ∷ cs) d h k),
        reverse-snoc (c ∷ []) cs d,
      )
      (ap path_of (reverse_twice [] [] (c ∷ cs) ∙ append-nil (c ∷ cs)))
