-- ===== src/Tests/SshRuns.antt =====
-- Keys and ports.
use ngxborg.Base.{◌≡◌, refl, true, false, List, [], ◌∷◌, some, arith, All}
use ngxborg.Text.{
  Text, codes, text_eq, split, trim_space, trim_left, trim_right, is_space, fields, fields_from,
  index, has_prefix, contains_char, join,
}
use ngxborg.Text.Words.{IsWord}
use ngxborg.Text.Decimal.{pos, negsuc, itoa, atoi}
use ngxborg.Text.Decimal.Laws.{atoi-itoa}
use ngxborg.Machine.Error.{ok}
use ngxborg.Sshaccess.PublicKey.{
  PublicKey, validate_public_key_line, public_key_of, is_key_type, decodes, is_base64,
  is_base64_char, drop_line_ends,
}
use ngxborg.Sshaccess.PublicKey.Laws.{IsValidKey, validate-IsValidKey}
use ngxborg.Sshaccess.KeyLine.{build_line, parse_line}
use ngxborg.Sshaccess.KeyLine.RoundTrip.{IsPlain, parse_line-build_line}
use ngxborg.Sshaccess.Sshd.{drop_in, ports_of}
use ngxborg.Sshaccess.Sshd.Ports.{ports_of-drop_in}

abbrev pub repo_path : Text
repo_path = codes "/var/lib/ngxborg/repos/alice/mail"

abbrev pub public_line : Text
public_line = codes "ssh-ed25519 AAAAC3Nz alice laptop\n"

abbrev pub accepted : PublicKey
accepted = record {
  key_type = codes "ssh-ed25519";
  key_material = codes "AAAAC3Nz";
  comment = codes "alice laptop";
}

abbrev pub plain : IsPlain repo_path
unfolding contains_char
plain = record { no_blank = refl; no_quote = refl }

pub accepts : validate_public_key_line public_line ≡ ok accepted
unfolding validate_public_key_line public_key_of is_key_type decodes is_base64 is_base64_char
    drop_line_ends text_eq trim_space trim_left trim_right is_space fields fields_from index
    has_prefix join
accepts = refl

abbrev admin_line : Text
admin_line = codes "ssh-rsa AAAA admin"

abbrev existing : List Text
existing =
    build_line (codes "/var/lib/ngxborg/repos/alice/old") false (codes "ssh-ed25519")
      (codes "AAAAC3Nz") []
    ∷ admin_line
    ∷ []

abbrev ed25519 : Text
ed25519 = codes "ssh-ed25519"

laptop_words : All IsWord (codes "me" ∷ [])
unfolding is_space
laptop_words = (((λ e. ground arith), (refl, (refl, tt))), tt)

abbrev valid_key : IsValidKey accepted
valid_key = validate-IsValidKey public_line accepted accepts

parse_line-build_line_example :
    parse_line
      (build_line repo_path true ed25519 (codes "AAAAC3Nz") (join (b' ' ∷ []) (codes "me" ∷ [])))
    ≡ some (record {
      repo_path = repo_path;
      append_only = true;
      key_type = ed25519;
      key_material = codes "AAAAC3Nz";
      comment = join (b' ' ∷ []) (codes "me" ∷ []);
    })
parse_line-build_line_example =
    parse_line-build_line ed25519 (codes "AAAAC3Nz") (codes "me" ∷ []) valid_key.type_word
      valid_key.material_word laptop_words repo_path true plain

ports_of-drop_in_example :
    ports_of (split b'\n' (drop_in (pos 22) (pos 2222))) ≡ pos 22 ∷ pos 2222 ∷ []
ports_of-drop_in_example = ports_of-drop_in (pos 22) (pos 2222) (omega arith) (omega arith)

atoi-itoa_example : atoi (itoa (negsuc 41)) ≡ some (negsuc 41)
atoi-itoa_example = atoi-itoa (negsuc 41) (omega arith)
