-- ===== src/Cli/Deployed.antt =====
-- What the unit file that setup writes makes of the choice of a certificate.
use ngxborg.Base.{◌≡◌, true, refl, ap, ◌∙◌, List, [], ◌∷◌, ◌++◌, some, append_assoc}
use ngxborg.Text.{Text, codes, fields, text_eq, is_space}
use ngxborg.Text.Words.{IsWord, fields-word, fields-word_end}
use ngxborg.Machine.Error.{ok}
use ngxborg.Machine.World.{World, M, pure, ◌>>=◌, ◌>>◌}
use ngxborg.System.Service.{require_root}
use ngxborg.Provision.Service.{web_unit, web_unit_tls_directives}
use ngxborg.Webui.Cert.{Crypto, ensure_cert}
use ngxborg.Webui.Listen.{Net, serve, serve_with_certs}
use ngxborg.Cli.Flags.{parse, token_of, cut_equals, value_of, with_value, set_from}
use ngxborg.Cli.SetupCommands.{serving_of, check_tls, cmd_web}

-- The command line in ExecStart, behind the binary.
abbrev pub exec_line : Text → Text → Text
exec_line addr flags = codes "web --addr " ++ (addr ++ (b' ' ∷ flags))

abbrev pub custom_line : Text → Text → Text → Text
custom_line addr cert key = exec_line addr (web_unit_tls_directives (codes "custom") cert key)

abbrev pub custom_args : Text → Text → Text → List Text
custom_args addr cert key =
    codes "--addr" ∷ addr ∷ codes "--tls-cert" ∷ cert ∷ codes "--tls-key" ∷ key ∷ []

custom_flags :
    (cert key : Text)
    → web_unit_tls_directives (codes "custom") cert key
      ≡ codes "--tls-cert " ++ (cert ++ (codes " --tls-key " ++ key))
unfolding web_unit_tls_directives text_eq
custom_flags cert key = refl

blank : is_space b' ' ≡ true
unfolding is_space
blank = refl

literal : (w : Text) → IsWord w → (rest : Text) → fields (w ++ b' ' ∷ rest) ≡ w ∷ fields rest
literal w h rest = fields-word w rest b' ' h blank

web-IsWord : IsWord (codes "web")
unfolding is_space
web-IsWord = ((λ e. cc), (refl, (refl, (refl, tt))))

addr-IsWord : IsWord (codes "--addr")
unfolding is_space
addr-IsWord = ((λ e. cc), (refl, (refl, (refl, (refl, (refl, (refl, tt)))))))

cert-IsWord : IsWord (codes "--tls-cert")
unfolding is_space
cert-IsWord =
    ((λ e. cc), (refl, (refl, (refl, (refl, (refl, (refl, (refl, (refl, (refl, (refl, tt)))))))))))

key-IsWord : IsWord (codes "--tls-key")
unfolding is_space
key-IsWord = ((λ e. cc), (refl, (refl, (refl, (refl, (refl, (refl, (refl, (refl, (refl, tt))))))))))

fields-custom_line :
    (addr cert key : Text)
    → IsWord addr
    → IsWord cert
    → IsWord key
    → fields (custom_line addr cert key) ≡ codes "web" ∷ custom_args addr cert key
fields-custom_line addr cert key ha hc hk = rw (custom_flags) (
    literal (codes "web") web-IsWord _
    ∙ ap (◌∷◌ (codes "web")) (
        literal (codes "--addr") addr-IsWord _
        ∙ ap (◌∷◌ (codes "--addr")) (
            literal addr ha _
            ∙ ap (◌∷◌ addr) (
                literal (codes "--tls-cert") cert-IsWord _
                ∙ ap (◌∷◌ (codes "--tls-cert")) (
                    literal cert hc _
                    ∙ ap (◌∷◌ cert) (
                        literal (codes "--tls-key") key-IsWord _
                        ∙ ap (◌∷◌ (codes "--tls-key")) (fields-word_end key hk)))))))

serving-custom_args :
    (addr cert key : Text)
    → serving_of (custom_args addr cert key)
      ≡ ok (record { addr = addr; tls_mode = codes "self-signed"; tls_cert = cert; tls_key = key })
unfolding serving_of parse token_of cut_equals value_of with_value set_from check_tls text_eq
serving-custom_args addr cert key = refl

abbrev pub unit_head : Text
unit_head =
    codes
      "# Managed by ngxborg — do not edit by hand; changes are overwritten by\n# `ngxborg setup`.\n[Unit]\nDescription=ngxborg web UI\nAfter=network.target ssh.service\n\n[Service]\nType=simple\nExecStart=/usr/local/bin/ngxborg "

abbrev pub unit_tail : Text
unit_tail = codes "\nRestart=on-failure\nRestartSec=2\n\n[Install]\nWantedBy=multi-user.target\n"

unit_splits :
    (addr flags : Text) → web_unit addr flags ≡ unit_head ++ (exec_line addr flags ++ unit_tail)
unfolding web_unit
unit_splits addr flags = rw (append_assoc addr (b' ' ∷ flags) unit_tail) refl

-- Listening with the program's own certificate.
abbrev pub self_signed : Crypto → Net → Text → M (Unit {0})
self_signed crypto net addr = do
  pair ← ensure_cert crypto
  net.listen (record { addr = addr; pair = some pair })

-- For an address and two file names that are words: the unit file that is written for
-- `--tls=custom` holds a command line, which at its blanks falls into `web` and arguments with which
-- `ngxborg web`, run by root, listens with the certificate that it makes for itself. The two files
-- are not read.
pub custom_tls_ignored :
    (crypto : Crypto) (net : Net) (addr cert key : Text) (w : World)
    → IsWord addr
    → IsWord cert
    → IsWord key
    → w.euid ≡ 0
    → (web_unit addr (web_unit_tls_directives (codes "custom") cert key)
        ≡ unit_head ++ (custom_line addr cert key ++ unit_tail))
      × (fields (custom_line addr cert key) ≡ codes "web" ∷ custom_args addr cert key)
      × (cmd_web crypto net (custom_args addr cert key) w
          ≡ (do self_signed crypto net addr; pure []) w)
unfolding cmd_web serve serve_with_certs require_root text_eq
custom_tls_ignored crypto net addr cert key w ha hc hk root = (
  unit_splits addr (web_unit_tls_directives (codes "custom") cert key),
  fields-custom_line addr cert key ha hc hk,
  rw (serving-custom_args, root) refl,
)
