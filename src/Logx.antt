-- ===== src/Logx.antt =====
-- internal/logx/logx.go: what the program prints. A call takes the text that its format gives, and
-- `out` and `err_out` are all that was written so far. The mutex makes each call one step.
pub mod Calls
pub mod Transcript
use ngxborg.Base.{
  ℕ, zero, suc, ◌-◌, Bool, true, false, List, [], ◌∷◌, ◌++◌, if◌then◌else◌, is_nil, ltb, length,
  ◌==◌,
}
use ngxborg.Text.{Text, codes, byte_len}
use ngxborg.Text.Decimal.{print_nat}

pub data Level : Type 0 where
  level_debug level_info level_warn level_error : Level

abbrev rank : Level → ℕ
rank level_debug = 0
rank level_info = 1
rank level_warn = 2
rank level_error = 3

-- `level > l`
abbrev pub above : Level → Level → Bool
above level l = ltb (rank l) (rank level)

pub record Log : Type 0 where
  pub level : Level
  pub use_color : Bool
  pub indent : ℕ
  pub warnings : List Text
  pub out : Text
  pub err_out : Text

-- The process at its start.
abbrev pub fresh_log : Bool → Log
fresh_log tty = record {
  level = level_info;
  use_color = tty;
  indent = 0;
  warnings = [];
  out = [];
  err_out = [];
}

abbrev pub reset_code : Text
reset_code = b'\x1b' ∷ codes "[0m"

abbrev pub dim : Text
dim = b'\x1b' ∷ codes "[2m"

abbrev pub bold : Text
bold = b'\x1b' ∷ codes "[1m"

abbrev pub red : Text
red = b'\x1b' ∷ codes "[31m"

abbrev pub green : Text
green = b'\x1b' ∷ codes "[32m"

abbrev pub yellow : Text
yellow = b'\x1b' ∷ codes "[33m"

abbrev pub blue : Text
blue = b'\x1b' ∷ codes "[34m"

abbrev pub cyan : Text
cyan = b'\x1b' ∷ codes "[36m"

-- strings.Repeat(s, n)
unfoldable pub repeat : Text → ℕ → Text
repeat s zero = []
repeat s (suc n) = s ++ repeat s n

unfoldable pub set_level : Level → Log → Log
set_level l log = record log { level = l }

unfoldable pub colorize : Log → Text → Text → Text
colorize log col s = if log.use_color then col ++ (s ++ reset_code) else s

-- What `emit` writes.
unfoldable pub emitted : Log → Text → Text
emitted log s = repeat (codes "  ") log.indent ++ (s ++ b'\n' ∷ [])

-- emit(out, s)
unfoldable pub emit_out : Text → Log → Log
emit_out s log = record log { out = log.out ++ emitted log s }

-- emit(errOut, s)
unfoldable pub emit_err : Text → Log → Log
emit_err s log = record log { err_out = log.err_out ++ emitted log s }

unfoldable pub section : Text → Log → Log
section s log =
    let start = emit_out [] (record log { indent = 0 }) in
    record (emit_out (colorize log (bold ++ blue) (codes "▸ " ++ s)) start) { indent = 1 }

unfoldable pub step : Text → Log → Log
step s log =
    if above log.level level_info then log else emit_out (colorize log cyan (codes "· ") ++ s) log

unfoldable pub change : Text → Log → Log
change s log =
    if above log.level level_info then log else emit_out (colorize log green (codes "✓ ") ++ s) log

unfoldable pub skip : Text → Log → Log
skip s log =
    if above log.level level_info then log else emit_out (colorize log dim (codes "= " ++ s)) log

unfoldable pub info : Text → Log → Log
info s log = if above log.level level_info then log else emit_out s log

unfoldable pub debug : Text → Log → Log
debug s log =
    if above log.level level_debug then log else emit_out (colorize log dim (codes "  " ++ s)) log

unfoldable pub warn : Text → Log → Log
warn s log =
    let kept = record log { warnings = log.warnings ++ s ∷ [] } in
    if above log.level level_warn
    then kept
    else emit_err (colorize log yellow (codes "! " ++ s)) kept

unfoldable pub error : Text → Log → Log
error s log = emit_err (colorize log red (codes "✗ " ++ s)) log

unfoldable pub reset_warnings : Log → Log
reset_warnings log = record log { warnings = [] }

-- The loop of Summary.
unfoldable pub replay : List Text → Log → Log
replay [] log = log
replay (m ∷ ms) log = replay ms (emit_err (colorize log yellow (codes "! " ++ m)) log)

unfoldable pub summary : Log → Log
summary log =
    if is_nil log.warnings
    then log
    else let start = emit_err [] (record log { indent = 0 }) in
      let head = print_nat (length log.warnings) ++ codes " warning(s) during this run:" in
      let headed = emit_err (colorize log (bold ++ yellow) head) start in
      record (replay log.warnings (record headed { indent = 1 })) { indent = 0 }

-- The first loop of KV, from the width so far.
unfoldable pub width_of : ℕ → List (Text × Text) → ℕ
width_of w [] = w
width_of w ((k, v) ∷ ps) = width_of (if ltb w (byte_len k) then byte_len k else w) ps

unfoldable pub kv_lines : ℕ → List (Text × Text) → Log → Log
kv_lines w [] log = log
kv_lines w ((k, v) ∷ ps) log = kv_lines w ps (
    emit_out
      (colorize log dim (k ++ b':' ∷ [])
        ++ (repeat (codes " ") (w - byte_len k) ++ (codes "  " ++ v)))
      log)

unfoldable pub kv : List (Text × Text) → Log → Log
kv ps log = kv_lines (width_of 0 ps) ps log

unfoldable pub bullet : Text → Log → Log
bullet s log = emit_out (codes "- " ++ s) log

abbrev ends_line : Text → Bool
ends_line [] = false
ends_line (c ∷ []) = c == b'\n'
ends_line (c ∷ d ∷ s) = ends_line (d ∷ s)

unfoldable pub raw : Text → Log → Log
raw s log = record log { out = log.out ++ (s ++ (if ends_line s then [] else b'\n' ∷ [])) }
