-- ===== src/Logx/Transcript.antt =====
-- What a run of calls leaves on the two outputs, and what its summary repeats.
use ngxborg.Base.{
  ◌≡◌, refl, ap, ◌∙◌, Bool, true, false, List, [], ◌∷◌, ◌++◌, append-nil, append_assoc,
  if◌then◌else◌, length, Bool-cases, inl, inr,
}
use ngxborg.Text.{Text, codes, has_prefix}
use ngxborg.Text.Search.{has_prefix-append}
use ngxborg.Text.Decimal.{print_nat}
use ngxborg.Logx.Calls.{
  Call, section_call, step_call, change_call, skip_call, info_call, debug_call, warn_call,
  error_call, level_call, apply, apply_all,
}
use ngxborg.Logx.{
  Log, level_warn, above, emitted, emit_out, emit_err, set_level, section, step, change, skip, info,
  debug, warn, error, bold, yellow, reset_code,
}

-- The warnings among the calls.
abbrev warned_by : Call → List Text
warned_by (warn_call s) = s ∷ []
warned_by _ = []

abbrev pub warned : List Call → List Text
warned [] = []
warned (c ∷ cs) = warned_by c ++ warned cs

-- What one call does: the buffer grows by its warning, and both outputs only grow.
record Grows (c : Call) (before after : Log) : Type 0 where
  buffered : after.warnings ≡ before.warnings ++ warned_by c
  more_out : (s : Text) × (after.out ≡ before.out ++ s)
  more_err : (s : Text) × (after.err_out ≡ before.err_out ++ s)
  same_color : after.use_color ≡ before.use_color

silent : (c : Call) (log : Log) → warned_by c ≡ [] → Grows c log log
silent c log e = record {
  buffered = rw (e, append-nil) refl;
  more_out = ([], rw append-nil refl);
  more_err = ([], rw append-nil refl);
  same_color = refl;
}

wrote_out : (c : Call) (log : Log) (s : Text) → warned_by c ≡ [] → Grows c log (emit_out s log)
unfolding emit_out
wrote_out c log s e = record {
  buffered = rw (e, append-nil) refl;
  more_out = (emitted log s, refl);
  more_err = ([], rw append-nil refl);
  same_color = refl;
}

unless :
    (c : Call) (log : Log) (b : Bool) (s : Text)
    → warned_by c ≡ []
    → Grows c log (if b then log else emit_out s log)
unless c log true s e = silent c log e
unless c log false s e = wrote_out c log s e

warn-Grows : (log : Log) (s : Text) → Grows (warn_call s) log (warn s log)
unfolding warn emit_err
warn-Grows log s = elim (Bool-cases (above log.level level_warn)) [
  | inl h ↦ rw h (record {
    buffered = refl;
    more_out = ([], rw append-nil refl);
    more_err = ([], rw append-nil refl);
    same_color = refl;
  })
  | inr h ↦ rw h (record {
    buffered = refl;
    more_out = ([], rw append-nil refl);
    more_err = (_, refl);
    same_color = refl;
  })
]

apply-Grows : (c : Call) (log : Log) → Grows c log (apply c log)
unfolding apply section step change skip info debug error set_level emit_out emit_err
apply-Grows (section_call s) log = record {
  buffered = rw append-nil refl;
  more_out = (_, append_assoc log.out _ _);
  more_err = ([], rw append-nil refl);
  same_color = refl;
}
apply-Grows (step_call s) log = unless (step_call s) log _ _ refl
apply-Grows (change_call s) log = unless (change_call s) log _ _ refl
apply-Grows (skip_call s) log = unless (skip_call s) log _ _ refl
apply-Grows (info_call s) log = unless (info_call s) log _ _ refl
apply-Grows (debug_call s) log = unless (debug_call s) log _ _ refl
apply-Grows (warn_call s) log = warn-Grows log s
apply-Grows (level_call l) log = record {
  buffered = rw append-nil refl;
  more_out = ([], rw append-nil refl);
  more_err = ([], rw append-nil refl);
  same_color = refl;
}
apply-Grows (error_call s) log = record {
  buffered = rw append-nil refl;
  more_out = ([], rw append-nil refl);
  more_err = (_, refl);
  same_color = refl;
}

record Grown (cs : List Call) (before after : Log) : Type 0 where
  buffered : after.warnings ≡ before.warnings ++ warned cs
  more_out : (s : Text) × (after.out ≡ before.out ++ s)
  more_err : (s : Text) × (after.err_out ≡ before.err_out ++ s)
  same_color : after.use_color ≡ before.use_color

apply_all-Grown : (cs : List Call) (log : Log) → Grown cs log (apply_all cs log)
unfolding apply_all
apply_all-Grown [] log = record {
  buffered = rw append-nil refl;
  more_out = ([], rw append-nil refl);
  more_err = ([], rw append-nil refl);
  same_color = refl;
}
apply_all-Grown (c ∷ cs) log =
    let one = apply-Grows c log in
    let rest = apply_all-Grown cs (apply c log) in
    record {
      buffered =
          rest.buffered
          ∙ ap (λ l. l ++ warned cs) one.buffered
          ∙ append_assoc log.warnings (warned_by c) (warned cs);
      more_out = (
        one.more_out.0 ++ rest.more_out.0,
        rest.more_out.1
            ∙ ap (λ l. l ++ rest.more_out.0) one.more_out.1
            ∙ append_assoc log.out one.more_out.0 rest.more_out.0,
      );
      more_err = (
        one.more_err.0 ++ rest.more_err.0,
        rest.more_err.1
            ∙ ap (λ l. l ++ rest.more_err.0) one.more_err.1
            ∙ append_assoc log.err_out one.more_err.0 rest.more_err.0,
      );
      same_color = rest.same_color ∙ one.same_color;
    }

extends : (s t : Text) → (r : Text) × (t ≡ s ++ r) → has_prefix t s ≡ true
extends s t (r, e) = rw e (has_prefix-append s r)

-- However the calls are mixed and whatever the level is: the buffer of warnings gets exactly the
-- warnings among the calls, in their order, and nothing that was written is ever taken back.
pub apply_all_lem :
    (cs : List Call) (log : Log)
    → ((apply_all cs log).warnings ≡ log.warnings ++ warned cs)
      × (has_prefix (apply_all cs log).out log.out ≡ true)
      × (has_prefix (apply_all cs log).err_out log.err_out ≡ true)
apply_all_lem cs log =
    let g = apply_all-Grown cs log in
    (
      g.buffered,
      extends log.out (apply_all cs log).out g.more_out,
      extends log.err_out (apply_all cs log).err_out g.more_err,
    )

abbrev pub painted : Bool → Text → Text → Text
painted color col s = if color then col ++ (s ++ reset_code) else s

-- The lines in which Summary repeats the warnings.
abbrev pub repeated : Bool → List Text → Text
repeated color [] = []
repeated color (m ∷ ms) =
    codes "  " ++ ((painted color yellow (codes "! " ++ m) ++ b'\n' ∷ []) ++ repeated color ms)

abbrev pub count_line : Bool → List Text → Text
count_line color ms =
    painted color (bold ++ yellow) (print_nat (length ms) ++ codes " warning(s) during this run:")

-- What Summary appends to the error output.
abbrev pub summary_of : Bool → List Text → Text
summary_of color [] = []
summary_of color (m ∷ ms) = b'\n' ∷ (count_line color (m ∷ ms) ++ (b'\n' ∷ repeated color (m ∷ ms)))
