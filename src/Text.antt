-- ===== src/Text.antt =====
-- Go strings, as the list of their code points, and what the program uses of the package
-- `strings`. Every text is taken to be valid UTF-8.
pub mod Search
pub mod Words
pub mod Lines
pub mod FilePath
pub mod Decimal
use Prim.Native.Char.{code}
use Prim.Native.String.{String}
use ngxborg.Base.{
  ℕ, suc, ◌+◌, Bool, true, false, not, ◌&&◌, ◌||◌, List, [], ◌∷◌, ◌++◌, Option, none, some, leb,
  ltb, ◌==◌, if◌then◌else◌, is_nil,
}

abbrev pub Text : Type 0
Text = List ℕ

-- A literal. `String` has its own `[]` and `∷`.
abbrev pub codes : String → Text
codes String.[] = []
codes (String.◌∷◌ c s) = code c ∷ codes s

-- s == t
unfoldable pub text_eq : Text → Text → Bool
text_eq [] [] = true
text_eq (a ∷ s) (b ∷ t) = (a == b) && text_eq s t
text_eq _ _ = false

-- s < t: byte order, which on UTF-8 is the order of the code points.
unfoldable pub text_lt : Text → Text → Bool
text_lt _ [] = false
text_lt [] (b ∷ t) = true
text_lt (a ∷ s) (b ∷ t) = ltb a b || ((a == b) && text_lt s t)

-- The number of bytes of a text.
unfoldable pub byte_len : Text → ℕ
byte_len [] = 0
byte_len (c ∷ s) =
    (if ltb c 128 then 1 else if ltb c 2048 then 2 else if ltb c 65536 then 3 else 4) + byte_len s

-- unicode.IsSpace
unfoldable pub is_space : ℕ → Bool
is_space c =
    (leb 9 c && leb c 13)
    || (c == 32)
    || (c == 0x85)
    || (c == 0xa0)
    || (c == 0x1680)
    || (leb 0x2000 c && leb c 0x200a)
    || (c == 0x2028)
    || (c == 0x2029)
    || (c == 0x202f)
    || (c == 0x205f)
    || (c == 0x3000)

-- strings.HasPrefix(s, prefix)
unfoldable pub has_prefix : Text → Text → Bool
has_prefix s [] = true
has_prefix [] (p ∷ ps) = false
has_prefix (c ∷ s) (p ∷ ps) = (c == p) && has_prefix s ps

abbrev shift : Option ℕ → Option ℕ
shift none = none
shift (some i) = some (suc i)

-- strings.Index(s, sub): where `sub` first stands in `s`; `none` is the source's -1.
unfoldable pub index : Text → Text → Option ℕ
unfolding has_prefix
index [] sub = if is_nil sub then some 0 else none
index (c ∷ s) sub =
    let rest = shift (index s sub) in if has_prefix (c ∷ s) sub then some 0 else rest

abbrev pub found : Option ℕ → Bool
found none = false
found (some i) = true

-- strings.Contains(s, sub)
abbrev pub contains : Text → Text → Bool
contains s sub = found (index s sub)

-- strings.ContainsAny(s, chars)
unfoldable pub contains_char : ℕ → Text → Bool
contains_char c [] = false
contains_char c (d ∷ s) = (c == d) || contains_char c s

-- strings.TrimSpace(s)
unfoldable pub trim_left : Text → Text
trim_left [] = []
trim_left (c ∷ s) = let rest = trim_left s in if is_space c then rest else c ∷ s

unfoldable pub trim_right : Text → Text
trim_right [] = []
trim_right (c ∷ s) = let rest = trim_right s in if is_space c && is_nil rest then [] else c ∷ rest

unfoldable pub trim_space : Text → Text
unfolding trim_left trim_right
trim_space s = trim_right (trim_left s)

-- The word read so far, if there is one.
abbrev pub flush : Text → List Text
flush [] = []
flush (c ∷ w) = (c ∷ w) ∷ []

-- strings.Fields(s), with the word that is being read.
unfoldable pub fields_from : Text → Text → List Text
fields_from word [] = flush word
fields_from word (c ∷ s) =
    let rest = fields_from (if is_space c then [] else word ++ c ∷ []) s in
    if is_space c then flush word ++ rest else rest

unfoldable pub fields : Text → List Text
unfolding fields_from
fields s = fields_from [] s

-- strings.Split(s, sep) for a separator of one character, with the piece that is being read.
unfoldable pub split_from : ℕ → Text → Text → List Text
split_from sep piece [] = piece ∷ []
split_from sep piece (c ∷ s) =
    let rest = split_from sep (if c == sep then [] else piece ++ c ∷ []) s in
    if c == sep then piece ∷ rest else rest

unfoldable pub split : ℕ → Text → List Text
unfolding split_from
split sep s = split_from sep [] s

-- strings.Join(parts, sep)
unfoldable pub join : Text → List Text → Text
join sep [] = []
join sep (p ∷ []) = p
join sep (p ∷ q ∷ ps) = p ++ (sep ++ join sep (q ∷ ps))
