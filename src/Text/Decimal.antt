-- ===== src/Text/Decimal.antt =====
-- Decimal numbers: `strconv.Itoa`, the verb %d, and `strconv.Atoi` on 64 bits.
pub mod Laws
use ngxborg.Base.{
  ℕ, zero, suc, ◌+◌, ◌-◌, ◌*◌, ◌/◌, ◌%◌, ◌^◌, ◌<◌, ◌≡◌, refl, Bool, true, false, ◌&&◌, not, List,
  [], ◌∷◌, ◌++◌, Option, none, some, leb, ltb, ◌==◌, if◌then◌else◌, is_nil, arith,
}
use ngxborg.Text.{Text, is_space}

-- `negsuc n` is -(n + 1).
pub data ℤ : Type 0 where
  pos : ℕ → ℤ
  negsuc : ℕ → ℤ

-- The digits of `n` in front of `out`, with as much fuel as `n` has digits or more.
unfoldable pub digits_onto : ℕ → ℕ → Text → Text
digits_onto zero n out = out
digits_onto (suc fuel) n out =
    let more = digits_onto fuel (n / 10) ((b'0' + n % 10) ∷ out) in
    if ltb n 10 then (b'0' + n) ∷ out else more

unfoldable pub print_nat : ℕ → Text
unfolding digits_onto
print_nat n = digits_onto (n + 1) n []

-- strconv.Itoa(n), fmt.Sprintf("%d", n)
unfoldable pub itoa : ℤ → Text
unfolding print_nat
itoa (pos n) = print_nat n
itoa (negsuc n) = b'-' ∷ print_nat (n + 1)

abbrev is_digit : ℕ → Bool
is_digit c = leb b'0' c && leb c b'9'

-- The number that the digits stand for, behind those read so far.
unfoldable pub read_digits : ℕ → Text → Option ℕ
read_digits acc [] = some acc
read_digits acc (c ∷ s) =
    let rest = read_digits (acc * 10 + (c - b'0')) s in if is_digit c then rest else none

unfoldable pub parse_nat : Text → Option ℕ
unfolding read_digits
parse_nat [] = none
parse_nat (c ∷ s) = read_digits 0 (c ∷ s)

-- Out of range is an error of `Atoi`.
unfoldable pub in_range : Bool → Option ℕ → Option ℤ
in_range negative none = none
in_range false (some n) = if ltb n (2 ^ 63) then some (pos n) else none
in_range true (some zero) = some (pos 0)
in_range true (some (suc n)) = if ltb n (2 ^ 63) then some (negsuc n) else none

-- strconv.Atoi(s)
unfoldable pub atoi : Text → Option ℤ
unfolding parse_nat in_range
atoi [] = none
atoi (c ∷ s) =
    if c == b'-'
    then in_range true (parse_nat s)
    else if c == b'+'
    then in_range false (parse_nat s)
    else in_range false (parse_nat (c ∷ s))

-- The digits at the front of a text, as the verb %d of `Sscanf` reads them.
unfoldable pub scan_digits : Option ℕ → Text → Option ℕ
scan_digits acc [] = acc
scan_digits none (c ∷ s) =
    let rest = scan_digits (some (c - b'0')) s in if is_digit c then rest else none
scan_digits (some n) (c ∷ s) =
    let rest = scan_digits (some (n * 10 + (c - b'0'))) s in if is_digit c then rest else some n

-- fmt.Sscanf(s, "%d", &n) for a signed n: a sign and digits behind leading blanks.
unfoldable pub scan_int : Text → Option ℤ
scan_int [] = none
scan_int (c ∷ s) =
    let rest = scan_int s in
    if is_space c && not (c == b'\n')
    then rest
    else if c == b'-'
    then in_range true (scan_digits none s)
    else if c == b'+'
    then in_range false (scan_digits none s)
    else in_range false (scan_digits none (c ∷ s))
