-- ===== src/Cli/Input.antt =====
-- internal/cli/password.go and prompt.go: what is read from standard input.
use ngxborg.Base.{
  ◌+◌, Bool, true, false, not, ◌&&◌, ◌||◌, List, [], ◌∷◌, if◌then◌else◌, is_nil, ◌==◌, leb,
}
use ngxborg.Text.{Text, codes, text_eq, trim_space}
use ngxborg.Machine.Error.{no_input, passwords_differ, empty_password, Result, ok, err}
use ngxborg.Machine.World.{World, M, pure, guard, lift, ◌>>=◌, ◌>>◌}
use ngxborg.System.Exec.{Host, capture}

-- A terminal gives one line to each reader.
pub data Stdin : Type 0 where
  piped : Text → Stdin
  terminal : List Text → Stdin

-- reader.ReadString('\n'): the text up to the first line feed with it, or all the text with EOF.
pub record Reading : Type 0 where
  pub line : Text
  pub eof : Bool

unfoldable pub read_string : Text → Reading
read_string [] = record { line = []; eof = true }
read_string (c ∷ s) =
    let rest = read_string s in
    if c == b'\n'
    then record { line = c ∷ []; eof = false }
    else record { line = c ∷ rest.line; eof = rest.eof }

abbrev next_line : List Text → Reading
next_line [] = record { line = []; eof = true }
next_line (l ∷ ls) = read_string l

abbrev later_lines : List Text → List Text
later_lines [] = []
later_lines (l ∷ ls) = ls

unfoldable pub trim_newline : Text → Text
trim_newline [] = []
trim_newline (c ∷ s) =
    let rest = trim_newline s in
    if ((c == b'\n') || (c == b'\r')) && is_nil rest then [] else c ∷ rest

-- A line is an error only if there was nothing.
abbrev some_line : Reading → Result Text
some_line r = if r.eof && is_nil r.line then err no_input else ok r.line

abbrev trimmed : Result Text → Result Text
trimmed (ok s) = ok (trim_newline s)
trimmed (err e) = err e

-- Without stty even a last line that lacks its line feed is an error.
abbrev visible_line : Reading → Result Text
visible_line r = if r.eof then err no_input else ok (trim_newline r.line)

module _ (host : Host) where
  abbrev stty : Text → World → World × Bool
  stty mode w =
      let done =
        capture host
          (record {
            name = codes "stty";
            args = codes "-F" ∷ codes "/dev/tty" ∷ mode ∷ [];
            stdin = [];
          })
          w in
      (done.0, done.1.success)

  unfoldable pub read_masked : List Text → M Text
  read_masked lines w =
      let hidden = stty (codes "-echo") w in
      if not hidden.1
      then (hidden.0, visible_line (next_line lines))
      else ((stty (codes "echo") hidden.0).0, trimmed (some_line (next_line lines)))

  unfoldable pub read_password : Stdin → M Text
  read_password (piped body) = lift (trimmed (some_line (read_string body)))
  read_password (terminal lines) = do
    first ← read_masked lines
    second ← read_masked (later_lines lines)
    guard (text_eq first second) passwords_differ
    guard (not (is_nil first)) empty_password
    pure first

-- strings.ToLower on the letters that the answers are compared with.
unfoldable pub to_lower : Text → Text
to_lower [] = []
to_lower (c ∷ s) = (if leb b'A' c && leb c b'Z' then c + 32 else c) ∷ to_lower s

abbrev reading_of : Stdin → Reading
reading_of (piped body) = read_string body
reading_of (terminal lines) = next_line lines

abbrev is_yes : Text → Bool
is_yes answer = text_eq answer (codes "y") || text_eq answer (codes "yes")

abbrev answered : Result Text → Result Bool
answered (ok line) = ok (is_yes (to_lower (trim_space line)))
answered (err e) = err e

unfoldable pub confirm : Stdin → Result Bool
confirm stdin = answered (some_line (reading_of stdin))
