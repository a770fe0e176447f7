-- ===== src/Borgrepo/Place/Confined.antt =====
-- Valid names keep a repository inside its tenant's directory; other names do not.
use ngxborg.Base.{◌≡◌, ◌≢◌, refl, sym, ap, ◌∙◌, true, false, List, [], ◌∷◌, ◌++◌, arith}
use ngxborg.Text.{Text, codes, text_eq, has_prefix, split, split_from, join, contains_char}
use ngxborg.Text.Search.{split-append, split_one}
use ngxborg.Text.FilePath.{
  slash, components, clean, join_path, clean_from, clean_step, pops, reverse_onto,
}
use ngxborg.Text.FilePath.Laws.{IsSegment, clean_step-IsSegment, clean_step-dots, clean_from-append}
use ngxborg.Borgrepo.Name.{is_name_char, valid_name, all_chars}
use ngxborg.Borgrepo.Place.{base, repo_dir}

name_chars-no_slash : (s : Text) → all_chars is_name_char s ≡ true → contains_char b'/' s ≡ false
unfolding is_name_char contains_char
name_chars-no_slash [] h = refl
name_chars-no_slash (c ∷ s) h = ground (arith, name_chars-no_slash s)

pub valid_name-IsSegment : (name : Text) → valid_name name ≡ true → IsSegment name
unfolding valid_name is_name_char
valid_name-IsSegment [] h = absurd (ground arith)
valid_name-IsSegment (c ∷ s) h = record {
  no_slash = unfold contains_char in ground (arith, name_chars-no_slash s);
  named = λ e. cc;
  not_dot = λ e. ground arith;
  not_dots = λ e. ground arith;
}

abbrev pub base_components : List Text
base_components = codes "var" ∷ codes "lib" ∷ codes "ngxborg" ∷ codes "repos" ∷ []

abbrev base_reversed : List Text
base_reversed = codes "repos" ∷ codes "ngxborg" ∷ codes "lib" ∷ codes "var" ∷ []

split-base : clean_from true [] (split b'/' base) ≡ base_reversed
unfolding base split clean_from clean_step pops text_eq
split-base = refl

rooted : (rest : Text) → has_prefix (base ++ rest) slash ≡ true
unfolding base has_prefix
rooted rest = refl

-- Below the base, cleaning goes on with the base's components done.
components-base :
    (rest : Text)
    → components (base ++ b'/' ∷ rest)
      ≡ reverse_onto [] (clean_from true base_reversed (split b'/' rest))
unfolding components
components-base rest =
    rw (rooted (b'/' ∷ rest), split-append b'/' base rest, clean_from-append, split-base)

components_two :
    (t n : Text)
    → IsSegment t
    → IsSegment n
    → components (base ++ b'/' ∷ (t ++ b'/' ∷ n)) ≡ base_components ++ t ∷ n ∷ []
components_two t n ht hn =
    components-base (t ++ b'/' ∷ n)
    ∙ rw (split-append b'/' t n, split_one b'/' t ht.no_slash, split_one b'/' n hn.no_slash)
        (unfold clean_from in
          rw (clean_step-IsSegment true _ t ht, clean_step-IsSegment true _ n hn))

clean-base :
    (rest : Text)
    → clean (base ++ b'/' ∷ rest) ≡ b'/' ∷ join slash (components (base ++ b'/' ∷ rest))
unfolding clean
clean-base rest = rw (rooted (b'/' ∷ rest))

repo_dir_joins :
    (t n : Text) → t ≢ [] → n ≢ [] → repo_dir t n ≡ clean (base ++ b'/' ∷ (t ++ b'/' ∷ n))
unfolding repo_dir join_path join base
repo_dir_joins [] n ht hn = absurd (ht refl)
repo_dir_joins (c ∷ t) [] ht hn = absurd (hn refl)
repo_dir_joins (c ∷ t) (d ∷ n) ht hn = refl

-- The path of a repository whose names are plain components.
pub repo_dir_lem :
    (t n : Text) → IsSegment t → IsSegment n → repo_dir t n ≡ base ++ b'/' ∷ (t ++ b'/' ∷ n)
unfolding join base
repo_dir_lem t n ht hn =
    repo_dir_joins t n ht.named hn.named
    ∙ clean-base (t ++ b'/' ∷ n)
    ∙ rw (components_two t n ht hn)

pub components-repo_dir :
    (t n : Text)
    → IsSegment t
    → IsSegment n
    → components (repo_dir t n) ≡ base_components ++ t ∷ n ∷ []
components-repo_dir t n ht hn = rw (repo_dir_lem t n ht hn) (components_two t n ht hn)

components_one :
    (t : Text) → IsSegment t → components (base ++ b'/' ∷ t) ≡ base_components ++ t ∷ []
components_one t h =
    components-base t
    ∙ rw (split_one b'/' t h.no_slash) (unfold clean_from in rw (clean_step-IsSegment true _ t h))

tenant_dir_joins : (t : Text) → t ≢ [] → join_path (base ∷ t ∷ []) ≡ clean (base ++ b'/' ∷ t)
unfolding join_path join base
tenant_dir_joins [] h = absurd (h refl)
tenant_dir_joins (c ∷ t) h = refl

-- The path of the directory of a tenant whose name is a plain component.
pub components-tenant_dir :
    (t : Text) → IsSegment t → components (join_path (base ∷ t ∷ [])) ≡ base_components ++ t ∷ []
unfolding join base
components-tenant_dir t h =
    ap components (tenant_dir_joins t h.named ∙ clean-base t ∙ rw (components_one t h))
    ∙ components_one t h

-- For valid names, two repositories have the same path only if they have the same tenant and the
-- same name.
pub repo_dir_injective :
    (t n u m : Text)
    → valid_name t ≡ true
    → valid_name n ≡ true
    → valid_name u ≡ true
    → valid_name m ≡ true
    → repo_dir t n ≡ repo_dir u m
    → (t ≡ u) × (n ≡ m)
repo_dir_injective t n u m ht hn hu hm e =
    let same : base_components ++ t ∷ n ∷ [] ≡ base_components ++ u ∷ m ∷ [] =
      sym (components-repo_dir t n (valid_name-IsSegment t ht) (valid_name-IsSegment n hn))
      ∙ ap components e
      ∙ components-repo_dir u m (valid_name-IsSegment u hu) (valid_name-IsSegment m hm) in
    (cc, cc)

split_dots : split b'/' (codes "..") ≡ codes ".." ∷ []
unfolding split split_from
split_dots = refl

clean_from_dots :
    (t : Text) (rest : List Text)
    → IsSegment t
    → clean_from true base_reversed (t ∷ codes ".." ∷ rest) ≡ clean_from true base_reversed rest
unfolding clean_from
clean_from_dots t rest h =
    rw (clean_step-IsSegment true base_reversed t h, clean_step-dots true base_reversed t h)

dots_to :
    (t rest : Text)
    → IsSegment t
    → components (base ++ b'/' ∷ (t ++ b'/' ∷ (codes "../" ++ rest)))
      ≡ components (base ++ b'/' ∷ rest)
dots_to t rest h =
    components-base (t ++ b'/' ∷ (codes "../" ++ rest))
    ∙ rw
        (
          split-append b'/' t (codes "../" ++ rest),
          split_one b'/' t h.no_slash,
          split-append b'/' (codes "..") rest,
          split_dots,
        )
        (ap (reverse_onto []) (clean_from_dots t (split b'/' rest) h) ∙ sym (components-base rest))

-- For a valid tenant, the name "../u/n" leads to the path of the repository n of u, for every
-- tenant u and name n that are plain components: the path is not confined to the tenant.
pub repo_dir_traversal :
    (t u n : Text)
    → valid_name t ≡ true
    → IsSegment u
    → IsSegment n
    → repo_dir t (codes "../" ++ (u ++ b'/' ∷ n)) ≡ repo_dir u n
repo_dir_traversal t u n ht hu hn =
    repo_dir_joins t (codes "../" ++ (u ++ b'/' ∷ n)) (valid_name-IsSegment t ht).named (λ e. cc)
    ∙ clean-base (t ++ b'/' ∷ (codes "../" ++ (u ++ b'/' ∷ n)))
    ∙ ap (λ cs. b'/' ∷ join slash cs) (dots_to t (u ++ b'/' ∷ n) (valid_name-IsSegment t ht))
    ∙ sym (clean-base (u ++ b'/' ∷ n))
    ∙ sym (repo_dir_joins u n hu.named hn.named)
