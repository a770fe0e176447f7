-- ===== src/Cli/Flags/Numeral.antt =====
-- strconv.ParseInt(s, 0, 64), by which the package `flag` reads an integer: a sign, a prefix for
-- the base, and underscores between digits.
use ngxborg.Base.{
  ℕ, ◌+◌, ◌-◌, ◌*◌, Bool, true, false, not, ◌&&◌, ◌||◌, [], ◌∷◌, Option, none, some, if◌then◌else◌,
  is_nil, ◌==◌, leb, ltb,
}
use ngxborg.Text.{Text}
use ngxborg.Text.Decimal.{ℤ, in_range}

-- 'a' to 'z' for their capitals
abbrev lower : ℕ → ℕ
lower c = if leb b'A' c && leb c b'Z' then c + 32 else c

abbrev between : ℕ → ℕ → ℕ → Bool
between a b c = leb a c && leb c b

unfoldable pub digit_value : ℕ → Option ℕ
digit_value c =
    if between b'0' b'9' c
    then some (c - b'0')
    else if between b'a' b'z' (lower c)
    then some (lower c - b'a' + 10)
    else none

abbrev next_digit : ℕ → ℕ → Option ℕ → Option ℕ
next_digit base acc none = none
next_digit base acc (some d) = if ltb d base then some (acc * base + d) else none

-- The loop over the digits, which passes over underscores.
unfoldable pub read_in : ℕ → Option ℕ → Text → Option ℕ
read_in base none s = none
read_in base (some acc) [] = some acc
read_in base (some acc) (c ∷ s) =
    read_in base (if c == b'_' then some acc else next_digit base acc (digit_value c)) s

-- The character that underscoreOK saw last.
pub data Saw : Type 0 where
  start digit underscore other : Saw

abbrev is_underscore : Saw → Bool
is_underscore underscore = true
is_underscore _ = false

abbrev is_digit_seen : Saw → Bool
is_digit_seen digit = true
is_digit_seen _ = false

unfoldable pub underscores_ok : Bool → Saw → Text → Bool
underscores_ok hex saw [] = not (is_underscore saw)
underscores_ok hex saw (c ∷ s) =
    let good = between b'0' b'9' c || (hex && between b'a' b'f' (lower c)) in
    let rest =
      underscores_ok hex (if good then digit else if c == b'_' then underscore else other) s in
    if good
    then rest
    else if c == b'_'
    then is_digit_seen saw && rest
    else not (is_underscore saw) && rest

abbrev checked : Bool → Option ℕ → Option ℕ
checked true n = n
checked false n = none

-- strconv.ParseUint(s, 0, 64), but for the range
unfoldable pub parse_uint : Text → Option ℕ
parse_uint [] = none
parse_uint (c ∷ []) = checked (underscores_ok false start (c ∷ [])) (read_in 10 (some 0) (c ∷ []))
parse_uint (c ∷ d ∷ s) =
    let hex = lower d == b'x' in
    let prefixed = (c == b'0') && ((lower d == b'b') || (lower d == b'o') || hex) in
    let body =
      if prefixed then underscores_ok hex digit s else underscores_ok false start (c ∷ d ∷ s) in
    let base = if lower d == b'b' then 2 else if lower d == b'o' then 8 else 16 in
    checked body (
      if prefixed && not (is_nil s)
      then read_in base (some 0) s
      else if c == b'0'
      then read_in 8 (some 0) (d ∷ s)
      else read_in 10 (some 0) (c ∷ d ∷ s))

unfoldable pub parse_int : Text → Option ℤ
parse_int [] = none
parse_int (c ∷ s) =
    if c == b'-'
    then in_range true (parse_uint s)
    else if c == b'+'
    then in_range false (parse_uint s)
    else in_range false (parse_uint (c ∷ s))
