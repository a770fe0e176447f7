-- ===== src/Facts.antt =====
-- internal/facts/facts.go: what setup and doctor know of the machine.
use ngxborg.Base.{
  ℕ, ◌+◌, ◌*◌, ◌/◌, ◌%◌, Bool, true, false, ◌&&◌, ◌||◌, List, [], ◌∷◌, ◌++◌, Option, none, some,
  if◌then◌else◌, leb, ltb, ◌==◌, take, drop, length, get_elem?,
}
use ngxborg.Text.{Text, codes, text_eq, trim_space, split, index, contains, fields}
use ngxborg.Text.Decimal.{ℤ, pos, negsuc, atoi, itoa}
use ngxborg.Machine.Error.{Result, ok, err}
use ngxborg.Machine.World.{M, pure, attempt, ◌>>=◌}
use ngxborg.Machine.Os.{os_read_file}
use ngxborg.System.Exec.{Host, capture}

pub record Os : Type 0 where
  pub id : Text
  pub id_like : Text
  pub version_id : Text
  pub pretty_name : Text

unfoldable pub debian_family : Os → Bool
debian_family o =
    text_eq o.id (codes "debian")
    || text_eq o.id (codes "ubuntu")
    || contains o.id_like (codes "debian")
    || contains o.id_like (codes "ubuntu")

pub record Facts : Type 0 where
  pub os : Os
  pub disk_free_mb : ℤ

abbrev is_quote : ℕ → Bool
is_quote c = (c == b'"') || (c == b'\'')

unfoldable pub trim_quotes_left : Text → Text
trim_quotes_left [] = []
trim_quotes_left (c ∷ s) = let rest = trim_quotes_left s in if is_quote c then rest else c ∷ s

unfoldable pub trim_quotes_right : Text → Text
trim_quotes_right [] = []
trim_quotes_right (c ∷ s) =
    let rest = trim_quotes_right s in
    if is_quote c && (elim rest [ [] ↦ true | _ ∷ _ ↦ false ]) then [] else c ∷ rest

-- The switch on the key of one line of os-release.
unfoldable pub set_field : Text → Text → Os → Os
set_field k v o =
    if text_eq k (codes "ID")
    then record o { id = v }
    else if text_eq k (codes "ID_LIKE")
    then record o { id_like = v }
    else if text_eq k (codes "VERSION_ID")
    then record o { version_id = v }
    else if text_eq k (codes "PRETTY_NAME")
    then record o { pretty_name = v }
    else o

-- strings.Cut at the first "=".
unfoldable pub os_line : Text → Os → Os
os_line raw o =
    let line = trim_space raw in
    elim (index line (codes "=")) [
      | none ↦ o
      | some i ↦
          set_field (take i line) (trim_quotes_right (trim_quotes_left (drop (i + 1) line))) o
    ]

unfoldable pub os_lines : List Text → Os → Os
os_lines [] o = o
os_lines (l ∷ ls) o = os_lines ls (os_line l o)

abbrev empty_os : Os
empty_os = record { id = []; id_like = []; version_id = []; pretty_name = [] }

abbrev os_of : Result Text → Os
os_of (ok body) = os_lines (split b'\n' body) empty_os
os_of (err e) = empty_os

unfoldable pub detect_os : M Os
detect_os = do body ← attempt (os_read_file (codes "/etc/os-release")); pure (os_of body)

abbrev last_of : List Text → Text
last_of [] = []
last_of (l ∷ []) = l
last_of (l ∷ m ∷ ls) = last_of (m ∷ ls)

abbrev number_or_zero : Option Text → ℤ
number_or_zero none = pos 0
number_or_zero (some f) = elim (atoi f) [ none ↦ pos 0 | some n ↦ n ]

-- The fourth field of the last line of df's output.
unfoldable pub free_of : Text → ℤ
free_of out =
    let lines = split b'\n' (trim_space out) in
    if ltb (length lines) 2 then pos 0 else number_or_zero (get_elem? (fields (last_of lines)) 3)

module _ (host : Host) where
  unfoldable pub disk_free_mb : Text → M ℤ
  disk_free_mb path w =
      let args = codes "-Pm" ∷ path ∷ [] in
      let done = capture host (record { name = codes "df"; args = args; stdin = [] }) w in
      (done.0, ok (if done.1.success then free_of done.1.stdout else pos 0))

  unfoldable pub detect : Text → M Facts
  detect root = do
    os ← detect_os
    free ← disk_free_mb root
    pure (record { os = os; disk_free_mb = free })

-- strconv.FormatFloat(float64(mb)/1024, 'f', 1, 64): tenths, a tie to the even one.
unfoldable pub tenths : ℕ → ℕ
tenths mb =
    let whole = mb * 10 / 1024 in
    let rest = mb * 10 % 1024 in
    if ltb rest 512 then whole else if ltb 512 rest then whole + 1 else whole + whole % 2

unfoldable pub format_mb : ℤ → Text
format_mb (negsuc n) = itoa (negsuc n) ++ codes " MB"
format_mb (pos mb) =
    if leb 1024 mb
    then itoa (pos (tenths mb / 10)) ++ (b'.' ∷ (itoa (pos (tenths mb % 10)) ++ codes " GB"))
    else itoa (pos mb) ++ codes " MB"
