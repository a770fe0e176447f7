-- ===== src/Logx/Calls.antt =====
-- Sequences of calls of internal/logx.
use ngxborg.Base.{List, [], ◌∷◌}
use ngxborg.Text.{Text}
use ngxborg.Logx.{Log, Level, set_level, section, step, change, skip, info, debug, warn, error}

-- The calls that the program makes while it works.
pub data Call : Type 0 where
  section_call step_call change_call skip_call info_call debug_call warn_call error_call :
      Text → Call
  level_call : Level → Call

unfoldable pub apply : Call → Log → Log
apply (section_call s) = section s
apply (step_call s) = step s
apply (change_call s) = change s
apply (skip_call s) = skip s
apply (info_call s) = info s
apply (debug_call s) = debug s
apply (warn_call s) = warn s
apply (error_call s) = error s
apply (level_call l) = set_level l

unfoldable pub apply_all : List Call → Log → Log
apply_all [] log = log
apply_all (c ∷ cs) log = apply_all cs (apply c log)
