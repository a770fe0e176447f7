-- ===== src/Cli/SetupCommands.antt =====
-- internal/cli/setup.go and web.go. A text for each error that doctor prints is the parameter
-- `describe`.
use ngxborg.Base.{
  ℕ, suc, Bool, true, false, ◌||◌, List, [], ◌∷◌, ◌++◌, if◌then◌else◌, is_nil, length,
}
use ngxborg.Text.{Text, codes, text_eq}
use ngxborg.Text.Decimal.{pos, print_nat}
use ngxborg.Machine.Error.{Error, usage, tls_needs_files, unknown_tls, Result, ok, err}
use ngxborg.Machine.World.{M, pure, lift, ◌>>=◌, ◌>>◌}
use ngxborg.System.Exec.{Host}
use ngxborg.System.Service.{require_root}
use ngxborg.Provision.Files.{new_ctx}
use ngxborg.Provision.Setup.{SetupOptions, setup}
use ngxborg.Provision.Service.{install_service, remove_service}
use ngxborg.Provision.Doctor.{
  Status, status_ok, status_warn, status_fail, Detail, text, because, Check, diagnose,
}
use ngxborg.Webui.Cert.{Crypto}
use ngxborg.Webui.Listen.{Net, serve, serve_with_certs}
use ngxborg.Logx.{level_debug}
use ngxborg.Logx.Calls.{
  Call, section_call, change_call, info_call, warn_call, error_call, level_call,
}
use ngxborg.Cli.Flags.{
  text_value, bool_value, int_value, Values, Parsed, parse, text_flag, bool_flag, int_flag,
}
use ngxborg.Cli.Command.{Command, padded}

-- The test of the TLS flags, in setup and in web.
unfoldable pub check_tls : Text → Text → Text → Result (Unit {0})
check_tls mode cert key =
    if text_eq mode (codes "self-signed") || text_eq mode (codes "none")
    then ok tt
    else if text_eq mode (codes "custom")
    then if is_nil cert || is_nil key then err tls_needs_files else ok tt
    else err unknown_tls

abbrev tls_flags : Values
tls_flags =
    (codes "tls", text_value (codes "self-signed"))
    ∷ (codes "tls-cert", text_value [])
    ∷ (codes "tls-key", text_value [])
    ∷ []

abbrev pub setup_flags : Values
setup_flags =
    (codes "admin-port", int_value (pos 22))
    ∷ (codes "borg-port", int_value (pos 2222))
    ∷ (codes "dry-run", bool_value false)
    ∷ (codes "verbose", bool_value false)
    ∷ tls_flags

abbrev pub web_flags : Values
web_flags =
    (codes "addr", text_value (codes ":8443")) ∷ (codes "insecure", bool_value false) ∷ tls_flags

abbrev addr_flag : Values
addr_flag = (codes "addr", text_value []) ∷ []

abbrev setup_options : Parsed → SetupOptions
setup_options p = record {
  admin_port = int_flag (codes "admin-port") p;
  borg_port = int_flag (codes "borg-port") p;
  tls_mode = text_flag (codes "tls") p;
  tls_cert = text_flag (codes "tls-cert") p;
  tls_key = text_flag (codes "tls-key") p;
}

-- What cmdWeb passes to the web UI.
pub record Serving : Type 0 where
  pub addr : Text
  pub tls_mode : Text
  pub tls_cert : Text
  pub tls_key : Text

abbrev effective_tls : Parsed → Text
effective_tls p = if bool_flag (codes "insecure") p then codes "none" else text_flag (codes "tls") p

abbrev serving_from : Parsed → Serving
serving_from p = record {
  addr = text_flag (codes "addr") p;
  tls_mode = effective_tls p;
  tls_cert = text_flag (codes "tls-cert") p;
  tls_key = text_flag (codes "tls-key") p;
}

abbrev if_valid : Serving → Result (Unit {0}) → Result Serving
if_valid s (ok _) = ok s
if_valid s (err e) = err e

abbrev checked_serving : Result Parsed → Result Serving
checked_serving (err e) = err e
checked_serving (ok p) =
    let s = serving_from p in if_valid s (check_tls s.tls_mode s.tls_cert s.tls_key)

-- The part of cmdWeb before it asks for root.
unfoldable pub serving_of : List Text → Result Serving
serving_of args = checked_serving (parse web_flags args)

abbrev fix_suffix : Text → Text
fix_suffix fix = if is_nil fix then [] else codes " — " ++ fix

abbrev count : (Status → Bool) → List Check → ℕ
count p [] = 0
count p (c ∷ cs) = if p c.status then suc (count p cs) else count p cs

abbrev is_fail : Status → Bool
is_fail status_fail = true
is_fail _ = false

abbrev is_warn : Status → Bool
is_warn status_warn = true
is_warn _ = false

module _ (describe : Error → Text) where
  abbrev shown : Detail → Text
  shown (text s) = s
  shown (because e) = describe e

  abbrev check_line : Check → Text
  check_line c = padded 24 c.name ++ (b' ' ∷ shown c.detail)

  abbrev call_for : Status → Text → Text → Call
  call_for status_ok line fix = change_call line
  call_for status_warn line fix = warn_call (line ++ fix_suffix fix)
  call_for status_fail line fix = error_call (line ++ fix_suffix fix)

  unfoldable pub check_lines : List Check → List Call
  check_lines [] = []
  check_lines (c ∷ cs) = call_for c.status (check_line c) (shown c.fix) ∷ check_lines cs

  unfoldable pub report : List Check → List Call
  report cs =
      section_call (codes "Diagnostics")
      ∷ (check_lines cs
          ++ (section_call (codes "Summary")
              ∷ info_call (
                  print_nat (length cs)
                  ++ (codes " checks, "
                      ++ (print_nat (count is_fail cs)
                          ++ (codes " failures, "
                              ++ (print_nat (count is_warn cs) ++ codes " warnings")))))
              ∷ []))

module _ (host : Host) where
  unfoldable pub cmd_setup : Command
  cmd_setup args = do
    p ← lift (parse setup_flags args)
    lift (
        check_tls (text_flag (codes "tls") p) (text_flag (codes "tls-cert") p)
          (text_flag (codes "tls-key") p))
    c ← new_ctx host (bool_flag (codes "dry-run") p)
    setup host c (setup_options p)
    pure (if bool_flag (codes "verbose") p then level_call level_debug ∷ [] else [])

  abbrev service_only : List Text → Result (List Text)
  service_only [] = err usage
  service_only (a ∷ rest) = if text_eq a (codes "service") then ok rest else err usage

  unfoldable pub cmd_install : Command
  cmd_install args = do
    rest ← lift (service_only args)
    p ← lift (parse addr_flag rest)
    c ← new_ctx host false
    install_service host c (text_flag (codes "addr") p)
    pure []

  unfoldable pub cmd_uninstall : Command
  cmd_uninstall args = do
    rest ← lift (service_only args)
    c ← new_ctx host false
    remove_service host c
    pure []

  unfoldable pub cmd_doctor : (Error → Text) → Command
  cmd_doctor describe args = do
    c ← new_ctx host false
    checks ← diagnose host c
    pure (report describe checks)

module _ (crypto : Crypto) (net : Net) where
  abbrev serve_as : Serving → M (Unit {0})
  serve_as s =
      if text_eq s.tls_mode (codes "custom")
      then serve_with_certs crypto net s.addr s.tls_mode s.tls_cert s.tls_key
      else serve crypto net s.addr s.tls_mode

  unfoldable pub cmd_web : Command
  cmd_web args = do s ← lift (serving_of args); require_root; serve_as s; pure []
