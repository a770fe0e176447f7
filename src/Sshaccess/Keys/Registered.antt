-- ===== src/Sshaccess/Keys/Registered.antt =====
-- What an account's keys are after AddKey and RemoveKey, for every file that they may find.
use ngxborg.Base.{◌≡◌, ◌≢◌, refl, Bool, List, [], ◌∷◌, some, arith, Option-cases, inl, inr}
use ngxborg.Text.{Text}
use ngxborg.Text.Search.{text_eq_iff, text_eq_ne}
use ngxborg.Machine.Error.{ok}
use ngxborg.Sshaccess.PublicKey.{PublicKey, validate_public_key_line}
use ngxborg.Sshaccess.PublicKey.Laws.{validate-IsValidKey}
use ngxborg.Sshaccess.KeyLine.{KeyEntry, parse_line, line_key_material}
use ngxborg.Sshaccess.KeyLine.RoundTrip.{IsPlain, parse_line-build_line, parse_line_material}
use ngxborg.Sshaccess.Keys.{with_key, without_key, parse_lines, line_for}
use ngxborg.Sshaccess.Keys.Counted.{of_key, in_place, of_key-with_key}
use ngxborg.Sshaccess.Keys.Laws.{
  others, foreign, holds_key, OnlyAs, with_key-OnlyAs, others-with_key, foreign-with_key,
  without_key_entries, foreign-without_key, without_key_met,
}

abbrev pub entry_for : Text → Bool → PublicKey → KeyEntry
entry_for repo_path append_only k = record {
  repo_path = repo_path;
  append_only = append_only;
  key_type = k.key_type;
  key_material = k.key_material;
  comment = k.comment;
}

pub parse_line-line_for :
    (repo_path line : Text) (append_only : Bool) (k : PublicKey)
    → IsPlain repo_path
    → validate_public_key_line line ≡ ok k
    → parse_line (line_for repo_path append_only k) ≡ some (entry_for repo_path append_only k)
parse_line-line_for repo_path line append_only k plain e =
    let v = validate-IsValidKey line k e in
    rw (v.comment_is) (
      parse_line-build_line k.key_type k.key_material v.comment_words v.type_word v.material_word
        v.words repo_path append_only plain)

-- What a file of keys holds once `k` is registered for one repository.
pub record IsRegistered (e : KeyEntry) (before after : List Text) : Type 0 where
  -- the key has an entry, and no other entry than `e`
  pub registered : OnlyAs e.key_material e (parse_lines after)
  -- it is the only one, unless the key had more: then each of them became `e`
  pub counted :
      of_key e.key_material (parse_lines after)
      ≡ in_place e (of_key e.key_material (parse_lines before))
  -- the entries of all other keys are as before, and in the same order
  pub other_keys :
      others e.key_material (parse_lines after) ≡ others e.key_material (parse_lines before)
  -- and so are the lines that are not ngxborg's
  pub other_lines : foreign after ≡ foreign before

-- For a public key line that is accepted and a path with no blank and no quote, the lines that
-- AddKey writes hold for the key the entry asked for, once if the key had no entry, and else in the
-- place of each entry that it had; the entries of other keys and the lines that are not ngxborg's
-- are unchanged.
pub with_key-IsRegistered :
    (repo_path line : Text) (append_only : Bool) (k : PublicKey) (lines : List Text)
    → IsPlain repo_path
    → validate_public_key_line line ≡ ok k
    → IsRegistered
        (entry_for repo_path append_only k)
        lines
        (with_key k.key_material (line_for repo_path append_only k) lines)
with_key-IsRegistered repo_path line append_only k lines plain e = record {
  registered = with_key-OnlyAs k.key_material new entry reads refl named lines;
  counted = of_key-with_key k.key_material new entry reads refl named lines;
  other_keys = others-with_key k.key_material new entry reads refl named lines;
  other_lines = foreign-with_key k.key_material new entry reads refl named lines;
}
  where
    new : Text
    new = line_for repo_path append_only k

    entry : KeyEntry
    entry = entry_for repo_path append_only k

    reads : parse_line new ≡ some entry
    reads = parse_line-line_for repo_path line append_only k plain e

    named : k.key_material ≢ []
    named = (validate-IsValidKey line k e).material_word.0

-- For key material that is not empty, RemoveKey finds the key exactly if it has an entry, takes
-- out all its entries and no others, and leaves the lines that are not ngxborg's.
pub without_key_lem :
    (material : Text) (lines : List Text)
    → material ≢ []
    → ((without_key material lines).met ≡ holds_key material (parse_lines lines))
      × (parse_lines (without_key material lines).out ≡ others material (parse_lines lines))
      × (foreign (without_key material lines).out ≡ foreign lines)
without_key_lem material lines named = (
  without_key_met material lines named,
  without_key_entries material lines named,
  foreign-without_key material lines named,
)

-- For empty key material the loop of RemoveKey takes out every line that is not ngxborg's, and
-- keeps all of ngxborg's own entries.
pub without_key_empty :
    (lines : List Text)
    → (foreign (without_key [] lines).out ≡ [])
      × (parse_lines (without_key [] lines).out ≡ parse_lines lines)
unfolding without_key parse_lines line_key_material
without_key_empty [] = (refl, refl)
without_key_empty (l ∷ ls) = elim (Option-cases (parse_line l)) [
  | inl n ↦ ground (arith, without_key_empty ls, text_eq_iff [] [])
  | inr (f, n) ↦
      ground
        (arith, without_key_empty ls, text_eq_ne f.key_material [] (parse_line_material l f n).0)
]
