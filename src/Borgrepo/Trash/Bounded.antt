-- ===== src/Borgrepo/Trash/Bounded.antt =====
-- How long a name in the trash can be.
use ngxborg.Base.{ℕ, ◌+◌, ◌/◌, ◌≤◌, ◌<◌, ltb, ◌≡◌, refl, true, [], ◌∷◌, ◌++◌, arith, length}
use ngxborg.Text.{Text, byte_len}
use ngxborg.Borgrepo.Name.{valid_name, is_alnum, is_name_char, all_chars}
use ngxborg.Borgrepo.Stamp.{stamp, date_of_days, two, four}
use ngxborg.Borgrepo.Trash.{separator, trash_name}

byte_len-append : (s t : Text) → byte_len (s ++ t) ≡ byte_len s + byte_len t
unfolding byte_len
byte_len-append [] t = omega arith
byte_len-append (c ∷ s) t = ground (arith, byte_len-append s t)

byte_len-name : (s : Text) → all_chars is_name_char s ≡ true → byte_len s ≡ length s
unfolding byte_len is_name_char is_alnum
byte_len-name [] h = refl
byte_len-name (c ∷ s) h = ground (arith, byte_len-name s)

-- A valid name has at most 64 bytes.
pub valid_name-byte_len : (s : Text) → valid_name s ≡ true → byte_len s ≤ 64
unfolding valid_name is_alnum byte_len
valid_name-byte_len [] h = ground (arith, h)
valid_name-byte_len (c ∷ s) h = ground (arith, byte_len-name s)

byte_len-two : (n : ℕ) → byte_len (two n) ≡ 2
unfolding byte_len
byte_len-two n = ground arith

byte_len-four : (n : ℕ) → byte_len (four n) ≡ 4
byte_len-four n =
    omega (arith, byte_len-append (two (n / 100)) (two n), byte_len-two (n / 100), byte_len-two n)

dash_byte : (t : Text) → byte_len (b'-' ∷ t) ≡ 1 + byte_len t
unfolding byte_len
dash_byte t = refl

-- A year, a month and a day, a dash, and three numbers of two digits.
byte_len-fields :
    (y m d a b c : ℕ)
    → byte_len (four y ++ (two m ++ (two d ++ (b'-' ∷ (two a ++ (two b ++ two c)))))) ≡ 15
byte_len-fields y m d a b c = omega (
  arith,
  byte_len-append (four y) (two m ++ (two d ++ (b'-' ∷ (two a ++ (two b ++ two c))))),
  byte_len-append (two m) (two d ++ (b'-' ∷ (two a ++ (two b ++ two c)))),
  byte_len-append (two d) (b'-' ∷ (two a ++ (two b ++ two c))),
  dash_byte (two a ++ (two b ++ two c)),
  byte_len-append (two a) (two b ++ two c),
  byte_len-append (two b) (two c),
  byte_len-four y,
  byte_len-two m,
  byte_len-two d,
  byte_len-two a,
  byte_len-two b,
  byte_len-two c,
)

ltb-true : (a b : ℕ) → a < b → ltb a b ≡ true
ltb-true a b h = ground (arith, h)

-- Up to the year 9999.
byte_len-stamp : (now : ℕ) → (date_of_days (now / 86400)).year < 10000 → byte_len (stamp now) ≡ 15
unfolding stamp
byte_len-stamp now h = rw (ltb-true _ 10000 h) (byte_len-fields _ _ _ _ _ _)

separator_bytes : byte_len separator ≡ 2
unfolding byte_len
separator_bytes = refl

-- The name of a repository with valid names in the trash has 19 bytes more than the two names, so
-- 147 at most, at any time before the year 10000.
pub trash_name_bounded :
    (t n : Text) (now : ℕ)
    → valid_name t ≡ true
    → valid_name n ≡ true
    → (date_of_days (now / 86400)).year < 10000
    → (byte_len (trash_name t n now) ≡ byte_len t + byte_len n + 19)
      × (byte_len (trash_name t n now) ≤ 147)
unfolding trash_name
trash_name_bounded t n now ht hn early =
    let long : byte_len (trash_name t n now) ≡ byte_len t + byte_len n + 19 = omega (
      arith,
      byte_len-append t (separator ++ (n ++ (separator ++ stamp now))),
      byte_len-append separator (n ++ (separator ++ stamp now)),
      byte_len-append n (separator ++ stamp now),
      byte_len-append separator (stamp now),
      separator_bytes,
      byte_len-stamp now early,
    ) in
    (long, omega (arith, long, valid_name-byte_len t ht, valid_name-byte_len n hn))
