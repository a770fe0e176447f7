-- ===== src/Tests/CliRuns.antt =====
-- Command lines.
use ngxborg.Base.{◌≡◌, refl, true, List, [], ◌∷◌, ◌++◌, arith, All}
use ngxborg.Text.{Text, codes, text_eq, contains_char, is_space, fields}
use ngxborg.Machine.Error.{Error}
use ngxborg.Machine.World.{World, User, pure, ◌>>◌}
use ngxborg.Text.Decimal.{itoa, print_nat}
use ngxborg.Text.Words.{IsWord}
use ngxborg.Provision.Service.{web_unit, web_unit_tls_directives}
use ngxborg.Cli.Flags.{token_of, value_of}
use ngxborg.Cli.Flags.Rendered.{Setting, set_on, IsName, IsFor, IsEnd}
use ngxborg.Cli.Identity.{current_user}
use ngxborg.Cli.Input.{piped}
use ngxborg.Cli.Scoped.{key_add, flags_of}
use ngxborg.Cli.Run.{run}
use ngxborg.Cli.Run.Refused.{IsFailed, run_other_refused}
use ngxborg.Logx.{fresh_log}
use ngxborg.Cli.SetupCommands.{cmd_web}
use ngxborg.Cli.Deployed.{
  unit_head, unit_tail, custom_line, custom_args, self_signed, custom_tls_ignored,
}
use ngxborg.Tests.Data.{machine, quiet_host, certifier, listener}

abbrev given : List Setting
given = set_on (codes "append-only") ∷ []

abbrev left_over : List Text
left_over = codes "db" ∷ codes "key.pub" ∷ []

append_only-IsName : IsName (codes "append-only")
unfolding contains_char
append_only-IsName = record { named = λ e. cc; no_equals = refl; no_dash = λ s e. cc }

given-IsFor : All (IsFor (flags_of key_add)) given
unfolding flags_of value_of text_eq
given-IsFor = ((append_only-IsName, refl), tt)

left_over-IsEnd : IsEnd left_over
unfolding token_of
left_over-IsEnd = refl

abbrev as_alice : World
as_alice = record machine { euid = 1001 }

abbrev alice : User
alice = record {
  name = codes "alice";
  uid = codes "1001";
  gid = codes "1001";
  home = codes "/home/alice";
}

abbrev add_as_bob : List Text
add_as_bob =
    codes "user"
    ∷ codes "key"
    ∷ codes "add"
    ∷ codes "--append-only"
    ∷ codes "--tenant"
    ∷ codes "bob"
    ∷ codes "db"
    ∷ codes "key.pub"
    ∷ []

abbrev untold : Error → Text
untold e = codes "refused"

run_other_refused_example :
    IsFailed quiet_host certifier listener untold
      (codes "dev")
      (piped [])
      as_alice
      (fresh_log true)
      (run quiet_host certifier listener untold
        (codes "dev")
        (piped [])
        add_as_bob
        as_alice
        (fresh_log true))
unfolding current_user text_eq itoa print_nat
run_other_refused_example =
    run_other_refused quiet_host certifier listener untold (codes "dev") (piped []) key_add given
      (codes "bob") left_over as_alice (fresh_log true) alice given-IsFor left_over-IsEnd refl refl
      (λ e. cc) (λ e. ground arith)

abbrev cert : Text
cert = codes "/etc/tls/web.crt"

abbrev key : Text
key = codes "/etc/tls/web.key"

address : IsWord (codes ":8443")
unfolding is_space
address = ((λ e. cc), (refl, (refl, (refl, (refl, (refl, tt))))))

cert_name : IsWord cert
unfolding is_space
cert_name = (
  (λ e. cc),
  (
    refl,
    (
      refl,
      (
        refl,
        (
          refl,
          (
            refl,
            (
              refl,
              (refl, (refl, (refl, (refl, (refl, (refl, (refl, (refl, (refl, (refl, tt)))))))))),
            ),
          ),
        ),
      ),
    ),
  ),
)

key_name : IsWord key
unfolding is_space
key_name = (
  (λ e. cc),
  (
    refl,
    (
      refl,
      (
        refl,
        (
          refl,
          (
            refl,
            (
              refl,
              (refl, (refl, (refl, (refl, (refl, (refl, (refl, (refl, (refl, (refl, tt)))))))))),
            ),
          ),
        ),
      ),
    ),
  ),
)

custom_tls_ignored_example :
    (web_unit (codes ":8443") (web_unit_tls_directives (codes "custom") cert key)
      ≡ unit_head ++ (custom_line (codes ":8443") cert key ++ unit_tail))
    × (fields (custom_line (codes ":8443") cert key)
        ≡ codes "web" ∷ custom_args (codes ":8443") cert key)
    × (cmd_web certifier listener (custom_args (codes ":8443") cert key) machine
        ≡ (do self_signed certifier listener (codes ":8443"); pure []) machine)
custom_tls_ignored_example =
    custom_tls_ignored certifier listener (codes ":8443") cert key machine address cert_name
      key_name refl
