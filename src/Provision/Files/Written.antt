-- ===== src/Provision/Files/Written.antt =====
-- What writeIfChanged leaves in the file.
use ngxborg.Base.{ℕ, ◌≡◌, refl, sym, subst, ap, ◌∙◌, true, false, arith, Bool-cases, inl, inr}
use ngxborg.Text.{Text}
use ngxborg.Text.Search.{text_eq_iff}
use ngxborg.Text.FilePath.{components, dir_of}
use ngxborg.Machine.Error.{Result, ok, err}
use ngxborg.Machine.World.{World, M, ◌>>◌}
use ngxborg.Machine.Os.{os_mkdir_all, os_read_file, os_write_file, os_rename}
use ngxborg.Machine.Os.Renames.{temporary, AreApart, mkdir_write_rename}
use ngxborg.Provision.Files.{holds, write_if_changed}

abbrev rewrite : Text → Text → ℕ → M (Unit {0})
rewrite path body mode = do
  os_mkdir_all (dir_of path) 0o755
  os_write_file (temporary path) body mode
  os_rename (temporary path) path

os_read_file_reads : (path : Text) (w : World) → (os_read_file path w).0 ≡ w
unfolding os_read_file
os_read_file_reads path w = ground arith

unchanged :
    (path body : Text) (mode : ℕ) (w v : World) (r : Result Text)
    → os_read_file path w ≡ (v, r)
    → holds body r ≡ true
    → (write_if_changed path body mode w ≡ (v, ok tt)) × (r ≡ ok body)
unfolding write_if_changed
unchanged path body mode w v (ok found) e h = (rw (e, h) refl, ap ok ((text_eq_iff found body).0 h))
unchanged path body mode w v (err x) e h = cc

changed :
    (path body : Text) (mode : ℕ) (w v : World) (r : Result Text)
    → os_read_file path w ≡ (v, r)
    → holds body r ≡ false
    → write_if_changed path body mode w ≡ rewrite path body mode v
unfolding write_if_changed
changed path body mode w v r e h = rw (e, h) refl

written_by :
    (path body : Text) (mode : ℕ) (w v : World) (r : Result Text)
    → os_read_file path w ≡ (v, r)
    → AreApart (components (temporary path)) (components path)
    → (write_if_changed path body mode w).1 ≡ ok tt
    → os_read_file path (write_if_changed path body mode w).0
      ≡ ((write_if_changed path body mode w).0, ok body)
written_by path body mode w v r e a h = elim (Bool-cases (holds body r)) [
  | inl k ↦
      let same = unchanged path body mode w v r e k in
      let here : w ≡ v = sym (os_read_file_reads path w) ∙ ap (λ x. x.0) e in
      subst (λ x. os_read_file path x.0 ≡ (x.0, ok body)) (sym same.0)
        (ap (os_read_file path) (sym here) ∙ e ∙ ap (λ x. (v, x)) same.1)
  | inr k ↦
      let done = changed path body mode w v r e k in
      subst (λ x. os_read_file path x.0 ≡ (x.0, ok body)) (sym done)
        (mkdir_write_rename (dir_of path) (temporary path) path body 0o755 mode v a
          (ap (λ x. x.1) (sym done) ∙ h))
]

-- Where the temporary file's path and the file's are apart: whenever writeIfChanged succeeds, the
-- file holds the text.
pub write_if_changed-reads :
    (path body : Text) (mode : ℕ) (w : World)
    → AreApart (components (temporary path)) (components path)
    → (write_if_changed path body mode w).1 ≡ ok tt
    → os_read_file path (write_if_changed path body mode w).0
      ≡ ((write_if_changed path body mode w).0, ok body)
write_if_changed-reads path body mode w =
    written_by path body mode w (os_read_file path w).0 (os_read_file path w).1 refl

-- Where the temporary file's path and the file's are apart: after a writeIfChanged that succeeds, a
-- second one with the same text succeeds and changes nothing.
pub write_if_changed_again :
    (path body : Text) (mode : ℕ) (w : World)
    → AreApart (components (temporary path)) (components path)
    → (write_if_changed path body mode w).1 ≡ ok tt
    → let v = (write_if_changed path body mode w).0 in
      write_if_changed path body mode v ≡ (v, ok tt)
write_if_changed_again path body mode w a h =
    let v = (write_if_changed path body mode w).0 in
    (unchanged path body mode v v (ok body) (write_if_changed-reads path body mode w a h)
      ((text_eq_iff body body).1 refl)).0
