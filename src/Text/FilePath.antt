-- ===== src/Text/FilePath.antt =====
-- What the program uses of the package `path/filepath`, on Unix.
pub mod Laws
pub mod Standard
use ngxborg.Base.{
  ℕ, Bool, true, false, not, ◌&&◌, List, [], ◌∷◌, ◌++◌, if◌then◌else◌, is_nil, keep_if,
}
use ngxborg.Text.{Text, codes, text_eq, has_prefix, split, join}

abbrev pub slash : Text
slash = b'/' ∷ []

-- The last component is a name, not "..".
unfoldable pub pops : List Text → Bool
pops [] = false
pops (d ∷ ds) = not (text_eq d (codes ".."))

abbrev pub tail_of : List Text → List Text
tail_of [] = []
tail_of (d ∷ ds) = ds

-- One component on the way through a path; `done` holds those kept so far, the last one first.
unfoldable pub clean_step : Bool → List Text → Text → List Text
clean_step rooted done c =
    if is_nil c
    then done
    else if text_eq c (codes ".")
    then done
    else if text_eq c (codes "..")
    then if pops done then tail_of done else if rooted then done else c ∷ done
    else c ∷ done

unfoldable pub clean_from : Bool → List Text → List Text → List Text
clean_from rooted done [] = done
clean_from rooted done (c ∷ cs) = clean_from rooted (clean_step rooted done c) cs

abbrev pub reverse_onto : List Text → List Text → List Text
reverse_onto out [] = out
reverse_onto out (c ∷ cs) = reverse_onto (c ∷ out) cs

-- The components of a path, with ".", ".." and empty ones resolved by the text alone.
unfoldable pub components : Text → List Text
components path = reverse_onto [] (clean_from (has_prefix path slash) [] (split b'/' path))

-- filepath.Clean(path)
unfoldable pub clean : Text → Text
clean path =
    let body = join slash (components path) in
    if has_prefix path slash then b'/' ∷ body else if is_nil body then codes "." else body

-- filepath.Join(elem...): empty elements are left out.
unfoldable pub join_path : List Text → Text
join_path elems =
    let named = keep_if (λ e. not (is_nil e)) elems in
    if is_nil named then [] else clean (join slash named)

-- filepath.Dir(path) of a cleaned path: all but the last component.
unfoldable pub dir_of : Text → Text
dir_of path =
    let body = join slash (reverse_onto [] (tail_of (reverse_onto [] (components path)))) in
    if has_prefix path slash then b'/' ∷ body else if is_nil body then codes "." else body
