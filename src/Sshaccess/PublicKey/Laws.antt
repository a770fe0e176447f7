-- ===== src/Sshaccess/PublicKey/Laws.antt =====
-- What a line that passes validatePublicKeyLine gives: a known type, material that decodes, and
-- pieces without white space.
use ngxborg.Base.{◌≡◌, subst, true, List, [], ◌∷◌, arith, All}
use ngxborg.Text.{Text, trim_space, fields, join}
use ngxborg.Text.Words.{IsWord, fields-IsWord}
use ngxborg.Machine.Error.{ok}
use ngxborg.Sshaccess.PublicKey.{
  PublicKey, is_key_type, decodes, public_key_of, validate_public_key_line,
}

pub record IsValidKey (k : PublicKey) : Type 0 where
  pub known_type : is_key_type k.key_type ≡ true
  pub decoded : decodes k.key_material ≡ true
  pub type_word : IsWord k.key_type
  pub material_word : IsWord k.key_material
  pub comment_words : List Text
  pub words : All IsWord comment_words
  pub comment_is : k.comment ≡ join (b' ' ∷ []) comment_words

public_key_of-IsValidKey :
    (fs : List Text) (k : PublicKey) → All IsWord fs → public_key_of fs ≡ ok k → IsValidKey k
unfolding public_key_of
public_key_of-IsValidKey [] k h e = absurd (ground arith)
public_key_of-IsValidKey (t ∷ []) k h e = absurd (ground arith)
public_key_of-IsValidKey (t ∷ m ∷ cs) k (ht, rest) e = record {
  known_type = ground arith;
  decoded = ground arith;
  type_word = subst IsWord (ground arith) ht;
  material_word = subst IsWord (ground arith) rest.0;
  comment_words = cs;
  words = rest.1;
  comment_is = ground arith;
}

-- Whenever a public key line is accepted, its key type is one of the known ones, its material
-- decodes as base64, and type, material and the pieces of the comment are words: not empty and
-- without white space.
pub validate-IsValidKey :
    (line : Text) (k : PublicKey) → validate_public_key_line line ≡ ok k → IsValidKey k
unfolding validate_public_key_line
validate-IsValidKey line k e =
    public_key_of-IsValidKey (fields (trim_space line)) k (fields-IsWord (trim_space line))
      (ground arith)
