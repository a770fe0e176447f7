-- ===== src/Cli/Scoped/Lines.antt =====
-- Command lines on which a tenant names another account.
use ngxborg.Base.{
  ◌≡◌, ◌≢◌, refl, sym, ◌∙◌, Bool, true, false, List, [], ◌∷◌, ◌++◌, some, All, All-append, arith,
  if◌then◌else◌, inr,
}
use ngxborg.Text.{Text, codes, text_eq, contains_char}
use ngxborg.Machine.World.{World, User}
use ngxborg.System.Exec.{Host}
use ngxborg.Cli.Flags.{Value, text_value, Values, value_of, with_value, Parsed, text_flag}
use ngxborg.Cli.Flags.Rendered.{
  IsName, text_kind, kind_of, Setting, set_text, set_on, rendered, effect, effects, IsFor, IsEnd,
  parse-rendered,
}
use ngxborg.Cli.Identity.{current_user}
use ngxborg.Cli.Input.{Stdin}
use ngxborg.Cli.Scoped.{
  repo_create, repo_list, repo_delete, repo_purge, repo_disable, repo_enable, key_add, key_list,
  key_remove, Scoped, flags_of, command_of, Refuses, scoped_refused,
}

has : Text → Values → Bool
has n [] = false
has n ((k, v) ∷ vs) = if text_eq k n then true else has n vs

has-with_value : (m n : Text) (v : Value) (vs : Values) → has m (with_value n v vs) ≡ has m vs
unfolding has with_value
has-with_value m n v [] = refl
has-with_value m n v ((k, u) ∷ vs) = ground (arith, has-with_value m n v vs)

has-effects : (m : Text) (ss : List Setting) (vs : Values) → has m (effects ss vs) ≡ has m vs
has-effects m [] vs = refl
has-effects m (set_text n s ∷ ss) vs =
    has-effects m ss (effect (set_text n s) vs) ∙ has-with_value m n _ vs
has-effects m (set_on n ∷ ss) vs = has-effects m ss (effect (set_on n) vs) ∙ has-with_value m n _ vs

value_of-last :
    (n : Text) (v : Value) (vs : Values) → has n vs ≡ true → value_of n (with_value n v vs) ≡ some v
unfolding has value_of with_value
value_of-last n v [] h = absurd (ground (arith, h))
value_of-last n v ((k, u) ∷ vs) h = ground (arith, h, value_of-last n v vs)

effects-append :
    (ss : List Setting) (s : Setting) (vs : Values)
    → effects (ss ++ s ∷ []) vs ≡ effect s (effects ss vs)
effects-append [] s vs = refl
effects-append (t ∷ ss) s vs = effects-append ss s (effect t vs)

has-kind : (n : Text) (vs : Values) → kind_of (value_of n vs) ≡ text_kind → has n vs ≡ true
unfolding has value_of
has-kind n [] h = absurd (ground (arith, h))
has-kind n ((k, v) ∷ vs) h = ground (arith, h, has-kind n vs)

tenant_text : (c : Scoped) → kind_of (value_of (codes "tenant") (flags_of c)) ≡ text_kind
unfolding value_of flags_of text_eq
tenant_text repo_create = refl
tenant_text repo_list = refl
tenant_text repo_delete = refl
tenant_text repo_purge = refl
tenant_text repo_disable = refl
tenant_text repo_enable = refl
tenant_text key_add = refl
tenant_text key_list = refl
tenant_text key_remove = refl

tenant-IsName : IsName (codes "tenant")
unfolding contains_char
tenant-IsName = record { named = λ e. cc; no_equals = refl; no_dash = λ s e. cc }

-- The settings with the tenant's name as the last one.
abbrev pub naming : Text → List Setting → List Setting
naming other ss = ss ++ set_text (codes "tenant") other ∷ []

abbrev named_line : Scoped → List Setting → Text → List Text → Parsed
named_line c ss other rest = record { values = effects (naming other ss) (flags_of c); args = rest }

text_flag-named_line :
    (c : Scoped) (ss : List Setting) (other : Text) (rest : List Text)
    → text_flag (codes "tenant") (named_line c ss other rest) ≡ other
text_flag-named_line c ss other rest =
    rw
      (
        effects-append ss (set_text (codes "tenant") other) (flags_of c),
        value_of-last (codes "tenant") (text_value other) (effects ss (flags_of c)) (
            has-effects (codes "tenant") ss (flags_of c)
            ∙ has-kind (codes "tenant") (flags_of c) (tenant_text c)),
      )
      refl

-- A process that is not root's is refused by every command that takes --tenant, whatever settings of
-- the command's flags come before `--tenant other`, if `other` is not its account's name nor empty,
-- and whatever arguments follow; and nothing changes.
pub other_refused :
    (host : Host) (stdin : Stdin) (c : Scoped) (ss : List Setting) (other : Text) (rest : List Text)
    (w : World) (u : User)
    → All (IsFor (flags_of c)) ss
    → IsEnd rest
    → current_user w ≡ some u
    → text_eq u.uid (codes "0") ≡ false
    → other ≢ []
    → other ≢ u.name
    → Refuses (command_of host stdin c (rendered (naming other ss) ++ rest)) w
other_refused host stdin c ss other rest w u h e me root named differs =
    let flag = text_flag-named_line c ss other rest in
    scoped_refused host stdin c (rendered (naming other ss) ++ rest) w (named_line c ss other rest)
      u
      (parse-rendered (naming other ss) rest (flags_of c)
        (All-append (IsFor (flags_of c)) ss (set_text (codes "tenant") other ∷ []) h
          ((tenant-IsName, tenant_text c), tt))
        e)
      me root (inr ((λ k. named (sym flag ∙ k)), (λ k. differs (sym flag ∙ k))))
