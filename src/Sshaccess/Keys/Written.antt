-- ===== src/Sshaccess/Keys/Written.antt =====
-- AddKey through the file: what readLines gives afterwards.
use ngxborg.Base.{
  ◌≡◌, ◌≢◌, refl, sym, ap, subst, ◌∙◌, Bool, true, List, [], arith, All, Bool-cases, inl, inr,
}
use ngxborg.Text.{Text}
use ngxborg.Text.FilePath.{components}
use ngxborg.Machine.Error.{no_such_key, ok, err}
use ngxborg.Machine.World.{World}
use ngxborg.Machine.Os.{os_read_file}
use ngxborg.Machine.Os.Renames.{temporary, AreApart}
use ngxborg.Sshaccess.Files.{body_of, read_lines}
use ngxborg.Sshaccess.Files.ReadBack.{IsStored}
use ngxborg.Sshaccess.PublicKey.{PublicKey, validate_public_key_line}
use ngxborg.Sshaccess.KeyLine.RoundTrip.{IsPlain}
use ngxborg.Sshaccess.Keys.{
  without_key, parse_lines, remove_key, Located, authorized_keys_path, with_key, line_for, add_key,
}
use ngxborg.Sshaccess.Keys.Registered.{
  IsRegistered, entry_for, with_key-IsRegistered, without_key_lem,
}
use ngxborg.Sshaccess.Keys.Laws.{others, foreign, holds_key}
use ngxborg.Sshaccess.Keys.Saved.{
  saved, saved-reads, read_as, read_lines-body, All-with_key, All-without_key,
}

-- AddKey for a key that is accepted, a file that is found and lines that can be read.
add_key-saved :
    (username repo_path line : Text) (append_only : Bool) (k : PublicKey) (file : Located)
    (existing : List Text) (w v : World)
    → validate_public_key_line line ≡ ok k
    → authorized_keys_path username w ≡ (v, ok file)
    → read_lines file.path v ≡ (v, ok existing)
    → add_key username repo_path line append_only w
      ≡ saved file (with_key k.key_material (line_for repo_path append_only k) existing) v
unfolding add_key
add_key-saved username repo_path line append_only k file existing w v e f r = rw (e, f, r) refl

-- For a key that is accepted, a plain repository path, and a new line and lines of the file that
-- readLines gives back as they are, where the temporary file's path and the file's are apart:
-- whenever AddKey succeeds, readLines of the account's file then succeeds with lines in which the
-- key has the entry asked for and no other, once if it had no entry or one, and else as often as it
-- had entries, and the entries of other keys and the lines that are not ngxborg's are those that
-- were there.
pub add_key-IsRegistered :
    (username repo_path line : Text) (append_only : Bool) (k : PublicKey) (file : Located)
    (existing : List Text) (w : World)
    → IsPlain repo_path
    → validate_public_key_line line ≡ ok k
    → (authorized_keys_path username w).1 ≡ ok file
    → (read_lines file.path (authorized_keys_path username w).0).1 ≡ ok existing
    → AreApart (components (temporary file.path)) (components file.path)
    → IsStored (line_for repo_path append_only k)
    → All IsStored existing
    → (add_key username repo_path line append_only w).1 ≡ ok tt
    → let after = (add_key username repo_path line append_only w).0 in
      (lines : List Text) × (read_lines file.path after ≡ (after, ok lines))
      × IsRegistered (entry_for repo_path append_only k) existing lines
add_key-IsRegistered username repo_path line append_only k file existing w plain e f r a new old h =
    let v = (authorized_keys_path username w).0 in
    let lines = with_key k.key_material (line_for repo_path append_only k) existing in
    let done =
      add_key-saved username repo_path line append_only k file existing w v e (ap (λ x. (v, x)) f)
        (read_as file.path v existing r) in
    (
      lines,
      read_lines-body file.path lines _
          (All-with_key k.key_material (line_for repo_path append_only k) existing new old)
          (subst (λ x. os_read_file file.path x.0 ≡ (x.0, ok (body_of lines))) (sym done)
            (saved-reads file lines v a (ap (λ x. x.1) (sym done) ∙ h))),
      with_key-IsRegistered repo_path line append_only k existing plain e,
    )

remove_key-saved :
    (username material : Text) (file : Located) (existing : List Text) (w v : World)
    → authorized_keys_path username w ≡ (v, ok file)
    → read_lines file.path v ≡ (v, ok existing)
    → (remove_key username material w).1 ≡ ok tt
    → ((without_key material existing).met ≡ true)
      × (remove_key username material w ≡ saved file (without_key material existing).out v)
unfolding remove_key
remove_key-saved username material file existing w v f r h =
    elim (Bool-cases (without_key material existing).met) [
      | inl m ↦ (m, rw (f, r, m) refl)
      | inr m ↦
          let refused : remove_key username material w ≡ (v, err no_such_key) = rw (f, r, m) refl in
          absurd (ground (arith, h, refused))
    ]

-- What a file of keys holds once the key is removed.
pub record IsRemoved (material : Text) (before after : List Text) : Type 0 where
  -- the key had an entry
  pub found : holds_key material (parse_lines before) ≡ true
  -- the entries are those of the other keys, in the same order
  pub other_keys : parse_lines after ≡ others material (parse_lines before)
  -- and the lines that are not ngxborg's are as before
  pub other_lines : foreign after ≡ foreign before

-- For key material that is not empty and lines of the file that readLines gives back as they are,
-- where the temporary file's path and the file's are apart: whenever RemoveKey succeeds, the key
-- had an entry, and readLines of the account's file then succeeds with lines whose entries are
-- those of the other keys, the lines that are not ngxborg's being those that were there.
pub remove_key-IsRemoved :
    (username material : Text) (file : Located) (existing : List Text) (w : World)
    → material ≢ []
    → (authorized_keys_path username w).1 ≡ ok file
    → (read_lines file.path (authorized_keys_path username w).0).1 ≡ ok existing
    → AreApart (components (temporary file.path)) (components file.path)
    → All IsStored existing
    → (remove_key username material w).1 ≡ ok tt
    → let after = (remove_key username material w).0 in
      (lines : List Text) × (read_lines file.path after ≡ (after, ok lines))
      × IsRemoved material existing lines
remove_key-IsRemoved username material file existing w named f r a old h =
    let v = (authorized_keys_path username w).0 in
    let lines = (without_key material existing).out in
    let done =
      remove_key-saved username material file existing w v (ap (λ x. (v, x)) f)
        (read_as file.path v existing r) h in
    let laws = without_key_lem material existing named in
    (
      lines,
      read_lines-body file.path lines _ (All-without_key material existing old) (
          subst (λ x. os_read_file file.path x.0 ≡ (x.0, ok (body_of lines))) (sym done.1)
            (saved-reads file lines v a (ap (λ x. x.1) (sym done.1) ∙ h))),
      record { found = sym laws.0 ∙ done.0; other_keys = laws.1; other_lines = laws.2 },
    )
