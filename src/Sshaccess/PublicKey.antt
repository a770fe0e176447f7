-- ===== src/Sshaccess/PublicKey.antt =====
-- internal/sshaccess/keys.go: validatePublicKeyLine, with the check that
-- `base64.StdEncoding.DecodeString` makes of a text.
pub mod Laws
use ngxborg.Base.{
  ℕ, Bool, true, false, not, ◌&&◌, ◌||◌, List, [], ◌∷◌, ◌++◌, Option, none, some, leb, ◌==◌,
  if◌then◌else◌, is_nil, any,
}
use ngxborg.Text.{Text, codes, text_eq, trim_space, fields, join, contains, index}
use ngxborg.Machine.Error.{
  Error, not_single_line, looks_private, too_few_fields, unknown_key_type, bad_base64, Result, ok,
  err,
}

unfoldable pub is_base64_char : ℕ → Bool
is_base64_char c =
    (leb b'A' c && leb c b'Z')
    || (leb b'a' c && leb c b'z')
    || (leb b'0' c && leb c b'9')
    || (c == b'+')
    || (c == b'/')

-- Four characters at a time; only the last four may end in padding.
unfoldable pub is_base64 : Text → Bool
unfolding is_base64_char
is_base64 [] = true
is_base64 (a ∷ b ∷ c ∷ d ∷ s) =
    let rest = is_base64 s in
    is_base64_char a
    && is_base64_char b
    && (if is_base64_char c
        then if is_base64_char d then rest else (d == b'=') && is_nil s
        else (c == b'=') && (d == b'=') && is_nil s)
is_base64 _ = false

unfoldable pub drop_line_ends : Text → Text
drop_line_ends [] = []
drop_line_ends (c ∷ s) =
    let rest = drop_line_ends s in if (c == b'\n') || (c == b'\r') then rest else c ∷ rest

-- base64.StdEncoding.DecodeString(s) gives no error: it passes over line ends.
unfoldable pub decodes : Text → Bool
unfolding is_base64 drop_line_ends
decodes s = is_base64 (drop_line_ends s)

abbrev pub ssh_public_key_types : List Text
ssh_public_key_types =
    codes "ssh-rsa"
    ∷ codes "ssh-ed25519"
    ∷ codes "ecdsa-sha2-nistp256"
    ∷ codes "ecdsa-sha2-nistp384"
    ∷ codes "ecdsa-sha2-nistp521"
    ∷ codes "sk-ssh-ed25519@openssh.com"
    ∷ codes "sk-ecdsa-sha2-nistp256@openssh.com"
    ∷ []

unfoldable pub is_key_type : Text → Bool
unfolding text_eq
is_key_type t = any (λ k. text_eq k t) ssh_public_key_types

pub record PublicKey : Type 0 where
  pub key_type : Text
  pub key_material : Text
  pub comment : Text

unfoldable pub public_key_of : List Text → Result PublicKey
public_key_of [] = err too_few_fields
public_key_of (t ∷ []) = err too_few_fields
public_key_of (t ∷ k ∷ cs) =
    if not (is_key_type t)
    then err unknown_key_type
    else if not (decodes k)
    then err bad_base64
    else ok (record { key_type = t; key_material = k; comment = join (b' ' ∷ []) cs })

unfoldable pub validate_public_key_line : Text → Result PublicKey
validate_public_key_line raw =
    let line = trim_space raw in
    if is_nil line || contains line (codes "\n")
    then err not_single_line
    else if contains line (codes "PRIVATE KEY")
    then err looks_private
    else public_key_of (fields line)
