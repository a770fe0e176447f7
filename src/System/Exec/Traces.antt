-- ===== src/System/Exec/Traces.antt =====
-- Which commands a step of the program runs.
use ngxborg.Base.{
  ◌≡◌, refl, sym, ap, ◌∙◌, Bool, true, false, List, [], ◌∷◌, ◌++◌, append_assoc, All, All-append,
  if◌then◌else◌, Bool-cases, inl, inr,
}
use ngxborg.Text.{Text}
use ngxborg.Machine.Error.{Error, Result, ok, err}
use ngxborg.Machine.World.{
  World, Invocation, M, continue, pure, gets, when, guard, attempt, ◌>>=◌, ◌>>◌,
}
use ngxborg.System.Exec.{Host, Runner, run, output}

abbrev pub command : Text → List Text → Invocation
command name args = record { name = name; args = args; stdin = [] }

-- Between `w` and `v` commands ran that all have the property, the last one first.
pub record Extends (P : Invocation → Type 0) (w v : World) : Type 0 where
  pub ran : List Invocation
  pub extended : v.history ≡ ran ++ w.history
  pub each : All P ran

-- All commands that the step runs have the property.
pub record Emits {ℓ} {A : Type ℓ} (P : Invocation → Type 0) (m : M A) : Type ℓ where
  pub extends : (w : World) → Extends P w (m w).0

pub Extends-same : (P : Invocation → Type 0) (w v : World) → v.history ≡ w.history → Extends P w v
Extends-same P w v e = record { ran = []; extended = e; each = tt }

pub Extends-trans :
    (P : Invocation → Type 0) (u v w : World) → Extends P u v → Extends P v w → Extends P u w
Extends-trans P u v w a b = record {
  ran = b.ran ++ a.ran;
  extended =
      b.extended ∙ ap (λ h. b.ran ++ h) a.extended ∙ sym (append_assoc b.ran a.ran u.history);
  each = All-append P b.ran a.ran b.each a.each;
}

-- A step that leaves the record of commands as it is.
pub silent-Emits {ℓ} :
    {A : Type ℓ} {P : Invocation → Type 0} (m : M A)
    → ((w : World) → (m w).0.history ≡ w.history)
    → Emits P m
silent-Emits {P = P} m h = record { extends = λ w. Extends-same P w (m w).0 (h w) }

pub pure-Emits {ℓ} : {A : Type ℓ} {P : Invocation → Type 0} (a : A) → Emits P (pure a)
pure-Emits a = silent-Emits (pure a) (λ w. refl)

pub gets-Emits {ℓ} : {A : Type ℓ} {P : Invocation → Type 0} (f : World → A) → Emits P (gets f)
gets-Emits f = silent-Emits (gets f) (λ w. refl)

pub guard-Emits : {P : Invocation → Type 0} (b : Bool) (e : Error) → Emits P (guard b e)
guard-Emits true e = silent-Emits (guard true e) (λ w. refl)
guard-Emits false e = silent-Emits (guard false e) (λ w. refl)

continue-Extends {ℓ κ} :
    {A : Type ℓ} {B : Type κ} (P : Invocation → Type 0) (r : Result A) (f : A → M B) (w : World)
    → ((a : A) → Emits P (f a))
    → Extends P w (continue r f w).0
continue-Extends P (ok a) f w h = (h a).extends w
continue-Extends P (err e) f w h = Extends-same P w w refl

pub >>=-Emits {ℓ κ} :
    {A : Type ℓ} {B : Type κ} {P : Invocation → Type 0} {m : M A} {f : A → M B}
    → Emits P m
    → ((a : A) → Emits P (f a))
    → Emits P (m >>= f)
>>=-Emits {P = P} {m = m} {f = f} h k = record {
  extends = λ w.
      Extends-trans P w (m w).0 ((m >>= f) w).0 (h.extends w)
        (continue-Extends P (m w).1 f (m w).0 k);
}

pub >>-Emits {ℓ κ} :
    {A : Type ℓ} {B : Type κ} {P : Invocation → Type 0} {m : M A} {k : M B}
    → Emits P m
    → Emits P k
    → Emits P (m >> k)
>>-Emits h n = >>=-Emits h (λ _. n)

pub if-Emits {ℓ} :
    {A : Type ℓ} {P : Invocation → Type 0} (b : Bool) {m k : M A}
    → Emits P m
    → Emits P k
    → Emits P (if b then m else k)
if-Emits true h n = h
if-Emits false h n = n

pub when-Emits :
    {P : Invocation → Type 0} (b : Bool) {m : M (Unit {0})} → Emits P m → Emits P (when b m)
when-Emits true h = record { extends = h.extends }
when-Emits false {m = m} h = silent-Emits (when false m) (λ w. refl)

pub attempt-Emits {ℓ} :
    {A : Type ℓ} {P : Invocation → Type 0} {m : M A} → Emits P m → Emits P (attempt m)
attempt-Emits h = record { extends = h.extends }

module _ (host : Host) where
  pub run-history :
      (r : Runner) (name : Text) (args : List Text) (w : World)
      → r.dry_run ≡ false
      → (run host r name args w).0.history ≡ command name args ∷ w.history
  unfolding run
  run-history r name args w h = rw h refl

  run-Extends :
      (P : Invocation → Type 0) (r : Runner) (name : Text) (args : List Text) (w : World)
      → P (command name args)
      → Extends P w (run host r name args w).0
  unfolding run
  run-Extends P r name args w p = elim (Bool-cases r.dry_run) [
    | inl d ↦ rw d (Extends-same P w w refl)
    | inr d ↦ record {
      ran = command name args ∷ [];
      extended = run-history r name args w d;
      each = (p, tt);
    }
  ]

  pub run-Emits :
      {P : Invocation → Type 0} (r : Runner) (name : Text) (args : List Text)
      → P (command name args)
      → Emits P (run host r name args)
  run-Emits {P = P} r name args p = record { extends = λ w. run-Extends P r name args w p }

  -- In a dry run nothing runs but what is asked for its output.
  pub run-dry-Emits :
      {P : Invocation → Type 0} (r : Runner) (name : Text) (args : List Text)
      → r.dry_run ≡ true
      → Emits P (run host r name args)
  unfolding run
  run-dry-Emits {P = P} r name args d = record { extends = λ w. rw d (Extends-same P w w refl) }

  pub output-Emits :
      {P : Invocation → Type 0} (r : Runner) (name : Text) (args : List Text)
      → P (command name args)
      → Emits P (output host r name args)
  unfolding output
  output-Emits r name args p = record {
    extends = λ w. record { ran = command name args ∷ []; extended = refl; each = (p, tt) };
  }
