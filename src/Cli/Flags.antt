-- ===== src/Cli/Flags.antt =====
-- What internal/cli uses of the package `flag`: sets of string, integer and Boolean flags in front
-- of the positional arguments. The messages that Parse prints itself are left out.
pub mod Numeral
pub mod Rendered
use ngxborg.Base.{
  ℕ, Bool, true, false, not, ◌&&◌, ◌||◌, List, [], ◌∷◌, ◌++◌, Option, none, some, if◌then◌else◌,
  is_nil, ◌==◌, any,
}
use ngxborg.Text.{Text, codes, text_eq}
use ngxborg.Text.Decimal.{ℤ}
use ngxborg.Machine.Error.{Error, bad_flag, Result, ok, err}
use ngxborg.Cli.Flags.Numeral.{parse_int}

pub data Value : Type 0 where
  text_value : Text → Value
  int_value : ℤ → Value
  bool_value : Bool → Value

-- The flags that are defined, each with the value that it has so far.
abbrev pub Values : Type 0
Values = List (Text × Value)

unfoldable pub value_of : Text → Values → Option Value
value_of name [] = none
value_of name ((n, v) ∷ vs) = if text_eq n name then some v else value_of name vs

unfoldable pub with_value : Text → Value → Values → Values
with_value name value [] = []
with_value name value ((n, v) ∷ vs) =
    if text_eq n name then (n, value) ∷ vs else (n, v) ∷ with_value name value vs

-- strconv.ParseBool(s)
unfoldable pub parse_bool : Text → Option Bool
parse_bool s =
    if any (λ t. text_eq t s)
      (codes "1" ∷ codes "t" ∷ codes "T" ∷ codes "true" ∷ codes "TRUE" ∷ codes "True" ∷ [])
    then some true
    else if any (λ t. text_eq t s)
        (codes "0" ∷ codes "f" ∷ codes "F" ∷ codes "false" ∷ codes "FALSE" ∷ codes "False" ∷ [])
    then some false
    else none

abbrev int_or_none : Option ℤ → Option Value
int_or_none none = none
int_or_none (some n) = some (int_value n)

abbrev bool_or_none : Option Bool → Option Value
bool_or_none none = none
bool_or_none (some b) = some (bool_value b)

-- flag.Value.Set: the new value of a flag from its argument.
unfoldable pub set_from : Value → Text → Option Value
set_from (text_value old) s = some (text_value s)
set_from (int_value old) s = int_or_none (parse_int s)
set_from (bool_value old) s = bool_or_none (parse_bool s)

-- The name and the value of `name=value`.
unfoldable pub cut_equals : Text → Text × Option Text
cut_equals [] = ([], none)
cut_equals (c ∷ s) =
    let rest = cut_equals s in if c == b'=' then ([], some s) else (c ∷ rest.0, rest.1)

-- What one argument is.
pub data Token : Type 0 where
  -- the first positional argument
  positional : Token
  -- "--"
  terminator : Token
  malformed : Token
  -- a flag, with the value behind "=" if there is one
  flag : Text → Option Text → Token

abbrev named : Text → Token
named [] = malformed
named (c ∷ name) =
    if (c == b'-') || (c == b'=')
    then malformed
    else flag (c ∷ (cut_equals name).0) (cut_equals name).1

unfoldable pub token_of : Text → Token
token_of (c ∷ d ∷ s) =
    if not (c == b'-')
    then positional
    else if not (d == b'-')
    then named (d ∷ s)
    else if is_nil s
    then terminator
    else named s
token_of _ = positional

-- How Parse goes on at an argument.
pub data Step : Type 0 where
  stop : Step
  skip : Step
  fails : Step
  sets : Values → Step
  -- the value of this flag is the next argument
  wants : Text → Value → Step

abbrev assigned : Text → Values → Option Value → Step
assigned name vs none = fails
assigned name vs (some v) = sets (with_value name v vs)

abbrev flag_step : Text → Option Text → Values → Option Value → Step
flag_step name given vs none = fails
flag_step name none vs (some (bool_value b)) = sets (with_value name (bool_value true) vs)
flag_step name none vs (some old) = wants name old
flag_step name (some s) vs (some old) = assigned name vs (set_from old s)

abbrev token_step : Token → Values → Step
token_step positional vs = stop
token_step terminator vs = skip
token_step malformed vs = fails
token_step (flag name given) vs = flag_step name given vs (value_of name vs)

pub record Parsed : Type 0 where
  pub values : Values
  -- fs.Args()
  pub args : List Text

-- fs.Parse(args)
unfoldable pub parse : Values → List Text → Result Parsed
parse vs [] = ok (record { values = vs; args = [] })
parse vs (s ∷ []) = elim (token_step (token_of s) vs) [
  | stop ↦ ok (record { values = vs; args = s ∷ [] })
  | skip ↦ ok (record { values = vs; args = [] })
  | fails ↦ err bad_flag
  | sets ws ↦ ok (record { values = ws; args = [] })
  | wants name old ↦ err bad_flag
]
parse vs (s ∷ v ∷ rest) = elim (token_step (token_of s) vs) [
  | stop ↦ ok (record { values = vs; args = s ∷ v ∷ rest })
  | skip ↦ ok (record { values = vs; args = v ∷ rest })
  | fails ↦ err bad_flag
  | sets ws ↦ parse ws (v ∷ rest)
  | wants name old ↦ elim (set_from old v) [
    | none ↦ err bad_flag
    | some value ↦ parse (with_value name value vs) rest
  ]
]

abbrev as_text : Option Value → Text
as_text (some (text_value s)) = s
as_text _ = []

abbrev as_bool : Option Value → Bool
as_bool (some (bool_value b)) = b
as_bool _ = false

abbrev as_int : Option Value → ℤ
as_int (some (int_value n)) = n
as_int _ = ℤ.pos 0

-- *fs.String(…), *fs.Bool(…), *fs.Int(…) after Parse
abbrev pub text_flag : Text → Parsed → Text
text_flag name p = as_text (value_of name p.values)

abbrev pub bool_flag : Text → Parsed → Bool
bool_flag name p = as_bool (value_of name p.values)

abbrev pub int_flag : Text → Parsed → ℤ
int_flag name p = as_int (value_of name p.values)
