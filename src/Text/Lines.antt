-- ===== src/Text/Lines.antt =====
-- What the program uses of `bufio.Scanner` with its default split function: the lines of a file.
use ngxborg.Base.{
  ℕ, ◌*◌, Bool, true, false, ◌&&◌, List, [], ◌∷◌, ◌++◌, leb, ◌==◌, if◌then◌else◌, is_nil,
}
use ngxborg.Text.{Text, byte_len}

-- Drops one carriage return at the end.
unfoldable pub drop_cr : Text → Text
drop_cr [] = []
drop_cr (c ∷ s) = let rest = drop_cr s in if is_nil s && c == b'\r' then [] else c ∷ rest

-- The lines between line feeds; what follows the last one is a line if it is not empty.
unfoldable pub raw_lines : Text → Text → List Text
raw_lines line [] = if is_nil line then [] else line ∷ []
raw_lines line (c ∷ s) =
    let rest = raw_lines (if c == b'\n' then [] else line ++ c ∷ []) s in
    if c == b'\n' then line ∷ rest else rest

-- The tokens that the scanner hands out, and whether it then stops with `ErrTooLong`: a line of
-- `limit` bytes or more does not fit in its buffer.
pub record Scan : Type 0 where
  pub lines : List Text
  pub too_long : Bool

unfoldable pub scan_raw : ℕ → List Text → Scan
scan_raw limit [] = record { lines = []; too_long = false }
scan_raw limit (l ∷ ls) =
    let rest = scan_raw limit ls in
    if leb limit (byte_len l)
    then record { lines = []; too_long = true }
    else record { lines = drop_cr l ∷ rest.lines; too_long = rest.too_long }

unfoldable pub scan : ℕ → Text → Scan
unfolding scan_raw raw_lines drop_cr byte_len
scan limit body = scan_raw limit (raw_lines [] body)

-- bufio.MaxScanTokenSize
abbrev pub max_scan_token_size : ℕ
max_scan_token_size = 64 * 1024
