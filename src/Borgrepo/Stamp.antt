-- ===== src/Borgrepo/Stamp.antt =====
-- time.Now().UTC().Format("20060102-150405"), as internal/borgrepo/borgrepo.go uses it: the
-- Gregorian date of a number of seconds since the epoch.
use ngxborg.Base.{ℕ, ◌+◌, ◌-◌, ◌*◌, ◌/◌, ◌%◌, [], ◌∷◌, ◌++◌, leb, ltb, if◌then◌else◌}
use ngxborg.Text.{Text}
use ngxborg.Text.Decimal.{print_nat}

pub record Date : Type 0 where
  pub year : ℕ
  pub month : ℕ
  pub day : ℕ

-- Counted in eras of 400 years that begin in March.
unfoldable pub date_of_days : ℕ → Date
date_of_days days =
    let z = days + 719468 in
    let era = z / 146097 in
    let doe = z % 146097 in
    let yoe = (doe + doe / 36524 - doe / 1460 - doe / 146096) / 365 in
    let doy = doe + yoe / 100 - (365 * yoe + yoe / 4) in
    let mp = (5 * doy + 2) / 153 in
    let month = if ltb mp 10 then mp + 3 else mp - 9 in
    record {
      year = yoe + era * 400 + (if leb month 2 then 1 else 0);
      month = month;
      day = doy + 1 - (153 * mp + 2) / 5;
    }

abbrev digit : ℕ → ℕ
digit n = b'0' + n % 10

abbrev pub two : ℕ → Text
two n = digit (n / 10) ∷ digit n ∷ []

abbrev pub four : ℕ → Text
four n = two (n / 100) ++ two n

-- A year, with four digits at least.
abbrev pub year_digits : ℕ → Text
year_digits n = if ltb n 10000 then four n else print_nat n

-- r.CreatedAt.Format(time.DateOnly), in UTC
unfoldable pub date_only : ℕ → Text
unfolding date_of_days
date_only now =
    let d = date_of_days (now / 86400) in
    year_digits d.year ++ (b'-' ∷ (two d.month ++ (b'-' ∷ two d.day)))

unfoldable pub stamp : ℕ → Text
unfolding date_of_days
stamp now =
    let d = date_of_days (now / 86400) in
    let s = now % 86400 in
    year_digits d.year
    ++ (two d.month
        ++ (two d.day ++ (b'-' ∷ (two (s / 3600) ++ (two (s / 60 % 60) ++ two (s % 60))))))
