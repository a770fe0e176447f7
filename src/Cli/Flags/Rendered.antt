-- ===== src/Cli/Flags/Rendered.antt =====
-- Parse reads back what is written as flags.
use ngxborg.Base.{
  ◌≡◌, ◌≢◌, refl, ◌∙◌, Bool, true, false, List, [], ◌∷◌, ◌++◌, Option, none, some, arith, All,
}
use ngxborg.Text.{Text, contains_char}
use ngxborg.Text.Search.{text_eq_iff}
use ngxborg.Machine.Error.{ok}
use ngxborg.Cli.Flags.{
  Value, text_value, bool_value, int_value, Values, value_of, with_value, set_from, cut_equals,
  positional, flag, token_of, parse,
}

-- A flag as it is given.
pub data Setting : Type 0 where
  -- --name value
  set_text : Text → Text → Setting
  -- --name
  set_on : Text → Setting

abbrev name_of : Setting → Text
name_of (set_text n s) = n
name_of (set_on n) = n

abbrev pub dashed : Text → Text
dashed n = b'-' ∷ b'-' ∷ n

abbrev pub rendered : List Setting → List Text
rendered [] = []
rendered (set_text n s ∷ ss) = dashed n ∷ s ∷ rendered ss
rendered (set_on n ∷ ss) = dashed n ∷ rendered ss

abbrev pub effect : Setting → Values → Values
effect (set_text n s) = with_value n (text_value s)
effect (set_on n) = with_value n (bool_value true)

abbrev pub effects : List Setting → Values → Values
effects [] vs = vs
effects (s ∷ ss) vs = effects ss (effect s vs)

-- A name that a flag can have.
pub record IsName (n : Text) : Type 0 where
  pub named : n ≢ []
  pub no_equals : contains_char b'=' n ≡ false
  pub no_dash : (s : Text) → n ≢ b'-' ∷ s

-- Which kind of flag there is.
pub data Kind : Type 0 where
  absent text_kind int_kind bool_kind : Kind

abbrev pub kind_of : Option Value → Kind
kind_of none = absent
kind_of (some (text_value s)) = text_kind
kind_of (some (int_value n)) = int_kind
kind_of (some (bool_value b)) = bool_kind

abbrev wanted_kind : Setting → Kind
wanted_kind (set_text n s) = text_kind
wanted_kind (set_on n) = bool_kind

abbrev pub IsFor : Values → Setting → Type 0
IsFor vs s = IsName (name_of s) × (kind_of (value_of (name_of s) vs) ≡ wanted_kind s)

cut_plain : (n : Text) → contains_char b'=' n ≡ false → cut_equals n ≡ (n, none)
unfolding cut_equals contains_char
cut_plain [] h = refl
cut_plain (c ∷ n) h = ground (arith, cut_plain n)

token_of-dashed : (n : Text) → IsName n → token_of (dashed n) ≡ flag n none
unfolding token_of contains_char
token_of-dashed [] h = absurd (h.named refl)
token_of-dashed (c ∷ n) h = ground (arith, cut_plain n, h.no_equals, h.no_dash n)

value_of-with_value :
    (m n : Text) (v : Value) (vs : Values)
    → kind_of (value_of n vs) ≡ kind_of (some v)
    → kind_of (value_of m (with_value n v vs)) ≡ kind_of (value_of m vs)
unfolding value_of with_value
value_of-with_value m n v [] h = refl
value_of-with_value m n v ((k, u) ∷ vs) h =
    ground (arith, value_of-with_value m n v vs, text_eq_iff k n, text_eq_iff k m, text_eq_iff n m)

IsFor-effect : (s t : Setting) (vs : Values) → IsFor vs s → IsFor vs t → IsFor (effect s vs) t
IsFor-effect (set_text n x) t vs h k =
    (k.0, value_of-with_value (name_of t) n (text_value x) vs h.1 ∙ k.1)
IsFor-effect (set_on n) t vs h k =
    (k.0, value_of-with_value (name_of t) n (bool_value true) vs h.1 ∙ k.1)

All-IsFor :
    (s : Setting) (ss : List Setting) (vs : Values)
    → IsFor vs s
    → All (IsFor vs) ss
    → All (IsFor (effect s vs)) ss
All-IsFor s [] vs h k = tt
All-IsFor s (t ∷ ss) vs h k = (IsFor-effect s t vs h k.0, All-IsFor s ss vs h k.1)

-- Where the flags end.
abbrev pub IsEnd : List Text → Type 0
IsEnd [] = Unit {0}
IsEnd (a ∷ rest) = token_of a ≡ positional

parse-end :
    (vs : Values) (rest : List Text)
    → IsEnd rest
    → parse vs rest ≡ ok (record { values = vs; args = rest })
unfolding parse
parse-end vs [] h = refl
parse-end vs (a ∷ []) h = rw (h, parse) refl
parse-end vs (a ∷ b ∷ rest) h = rw (h, parse) refl

text_kind_value :
    (o : Option Value) → kind_of o ≡ text_kind → (s : Text) × (o ≡ some (text_value s))
text_kind_value none h = absurd (ground (arith, h))
text_kind_value (some (text_value s)) h = (s, refl)
text_kind_value (some (int_value n)) h = absurd (ground (arith, h))
text_kind_value (some (bool_value b)) h = absurd (ground (arith, h))

bool_kind_value :
    (o : Option Value) → kind_of o ≡ bool_kind → (b : Bool) × (o ≡ some (bool_value b))
bool_kind_value none h = absurd (ground (arith, h))
bool_kind_value (some (text_value s)) h = absurd (ground (arith, h))
bool_kind_value (some (int_value n)) h = absurd (ground (arith, h))
bool_kind_value (some (bool_value b)) h = (b, refl)

parse-set_text :
    (n s : Text) (rest : List Text) (vs : Values)
    → IsFor vs (set_text n s)
    → parse vs (dashed n ∷ s ∷ rest) ≡ parse (with_value n (text_value s) vs) rest
unfolding parse
parse-set_text n s rest vs h =
    let old = text_kind_value (value_of n vs) h.1 in
    rw (token_of-dashed n h.0, parse) (rw (old.1, parse) (unfold set_from in refl))

parse-set_on :
    (n : Text) (rest : List Text) (vs : Values)
    → IsFor vs (set_on n)
    → parse vs (dashed n ∷ rest) ≡ parse (with_value n (bool_value true) vs) rest
unfolding parse
parse-set_on n [] vs h =
    let old = bool_kind_value (value_of n vs) h.1 in
    rw (token_of-dashed n h.0, parse) (rw (old.1, parse) refl)
parse-set_on n (v ∷ rest) vs h =
    let old = bool_kind_value (value_of n vs) h.1 in
    rw (token_of-dashed n h.0, parse) (rw (old.1, parse) refl)

-- Parse reads back any settings of flags that are defined, a string flag given as `--name value`
-- and a Boolean one as `--name`, with the last setting of a flag in force; what begins with the
-- first positional argument, flags behind it included, is left as it is.
pub parse-rendered :
    (ss : List Setting) (rest : List Text) (vs : Values)
    → All (IsFor vs) ss
    → IsEnd rest
    → parse vs (rendered ss ++ rest) ≡ ok (record { values = effects ss vs; args = rest })
parse-rendered [] rest vs h e = parse-end vs rest e
parse-rendered (set_text n s ∷ ss) rest vs h e =
    parse-set_text n s (rendered ss ++ rest) vs h.0
    ∙ parse-rendered ss rest (with_value n (text_value s) vs)
        (All-IsFor (set_text n s) ss vs h.0 h.1) e
parse-rendered (set_on n ∷ ss) rest vs h e =
    parse-set_on n (rendered ss ++ rest) vs h.0
    ∙ parse-rendered ss rest (with_value n (bool_value true) vs)
        (All-IsFor (set_on n) ss vs h.0 h.1) e
