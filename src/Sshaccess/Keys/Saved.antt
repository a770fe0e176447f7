-- ===== src/Sshaccess/Keys/Saved.antt =====
-- What readLines gives of a file of keys that was written.
use ngxborg.Base.{
  ℕ, ◌≡◌, ◌≢◌, refl, sym, ap, subst, ◌∙◌, List, [], ◌∷◌, some, arith, All, All-append, Option-cases,
  Bool-cases, inl, inr,
}
use ngxborg.Text.{Text, text_eq}
use ngxborg.Text.Lines.{scan}
use ngxborg.Text.FilePath.{components, dir_of}
use ngxborg.Machine.Fs.{Node, stat}
use ngxborg.Machine.Error.{ok}
use ngxborg.Machine.World.{World, M, ◌>>◌}
use ngxborg.Machine.World.Inversion.{>>=-ok}
use ngxborg.Machine.Os.{os_read_file, os_chown}
use ngxborg.Machine.Os.Writes.{IsFile, os_read_file-file}
use ngxborg.Machine.Os.Renames.{temporary, AreApart, put_there, mkdir_write_rename}
use ngxborg.Sshaccess.Files.{line_limit, body_of, read_lines, write_lines, atomic_write}
use ngxborg.Sshaccess.Files.ReadBack.{IsStored, file_lines-body_of}
use ngxborg.Sshaccess.KeyLine.{line_key_material}
use ngxborg.Sshaccess.Keys.{without_key, Located, retarget, with_key}

os_read_file-node :
    (path body : Text) (w : World)
    → (os_read_file path w).1 ≡ ok body
    → (n : Node) × IsFile body n × (stat (components path) w.fs ≡ some n)
unfolding os_read_file
os_read_file-node path body w h = elim (Option-cases (stat (components path) w.fs)) [
  | inl e ↦ absurd (ground (arith, h, e))
  | inr (n, e) ↦ (n, record { plain = ground (arith, h, e); holds = ground (arith, h, e) }, e)
]

-- A change of owner keeps the content.
os_chown-reads :
    (path body : Text) (uid gid : ℕ) (w : World)
    → components path ≢ []
    → (os_read_file path w).1 ≡ ok body
    → os_read_file path (os_chown path uid gid w).0 ≡ ((os_chown path uid gid w).0, ok body)
unfolding os_chown
os_chown-reads path body uid gid w named h =
    let (n, file, there) = os_read_file-node path body w h in
    rw there (
      os_read_file-file path body _ (record n { uid = uid; gid = gid })
        (put_there (components path) (record n { uid = uid; gid = gid }) w.fs named)
        (record { plain = file.plain; holds = file.holds }))

pub read_lines-body :
    (path : Text) (ls : List Text) (w : World)
    → All IsStored ls
    → os_read_file path w ≡ (w, ok (body_of ls))
    → read_lines path w ≡ (w, ok ls)
unfolding read_lines
read_lines-body path ls w h e = let back = file_lines-body_of ls h in rw (e, back.1, back.0) refl

read_lines_reads : (path : Text) (w : World) → (read_lines path w).0 ≡ w
unfolding read_lines os_read_file
read_lines_reads path w = elim (Option-cases (stat (components path) w.fs)) [
  | inl e ↦ rw e refl
  | inr (n, e) ↦ elim (Bool-cases n.is_dir) [
    | inl d ↦ rw (e, d) refl
    | inr d ↦
        rw (e, d)
          (elim (Bool-cases (scan line_limit n.content).too_long) [
            | inl l ↦ rw l refl
            | inr l ↦ rw l refl
          ])
  ]
]

All-retarget :
    (material new : Text) (lines : List Text)
    → IsStored new
    → All IsStored lines
    → All IsStored (retarget material new lines).out
unfolding retarget
All-retarget material new [] n h = tt
All-retarget material new (l ∷ lines) n h =
    elim (Bool-cases (text_eq (line_key_material l) material)) [
      | inl e ↦ rw e (n, All-retarget material new lines n h.1)
      | inr e ↦ rw e (h.0, All-retarget material new lines n h.1)
    ]

pub All-with_key :
    (material new : Text) (lines : List Text)
    → IsStored new
    → All IsStored lines
    → All IsStored (with_key material new lines)
unfolding with_key
All-with_key material new lines n h =
    let kept = All-retarget material new lines n h in
    elim (Bool-cases (retarget material new lines).met) [
      | inl e ↦ rw e kept
      | inr e ↦ rw e (All-append IsStored _ (new ∷ []) kept (n, tt))
    ]

pub read_as :
    (path : Text) (w : World) (lines : List Text)
    → (read_lines path w).1 ≡ ok lines
    → read_lines path w ≡ (w, ok lines)
read_as path w lines r =
    ap (λ x. (x, (read_lines path w).1)) (read_lines_reads path w) ∙ ap (λ x. (w, x)) r

-- The last two steps of AddKey and RemoveKey.
abbrev pub saved : Located → List Text → M (Unit {0})
saved file lines = do write_lines file.path lines; os_chown file.path file.uid file.gid

write_lines-reads :
    (path : Text) (ls : List Text) (w : World)
    → AreApart (components (temporary path)) (components path)
    → (write_lines path ls w).1 ≡ ok tt
    → os_read_file path (write_lines path ls w).0 ≡ ((write_lines path ls w).0, ok (body_of ls))
unfolding write_lines atomic_write
write_lines-reads path ls w a h =
    mkdir_write_rename (dir_of path) (temporary path) path (body_of ls) 0o755 0o600 w a h

pub saved-reads :
    (file : Located) (ls : List Text) (w : World)
    → AreApart (components (temporary file.path)) (components file.path)
    → (saved file ls w).1 ≡ ok tt
    → os_read_file file.path (saved file ls w).0 ≡ ((saved file ls w).0, ok (body_of ls))
saved-reads file ls w a h =
    let one = >>=-ok (write_lines file.path ls) (λ _. os_chown file.path file.uid file.gid) w h in
    subst (λ r. os_read_file file.path r.0 ≡ (r.0, ok (body_of ls))) (sym one.2)
      (os_chown-reads file.path (body_of ls) file.uid file.gid (write_lines file.path ls w).0
        a.right_named (ap (λ r. r.1) (write_lines-reads file.path ls w a one.1)))

pub All-without_key :
    (material : Text) (lines : List Text)
    → All IsStored lines
    → All IsStored (without_key material lines).out
unfolding without_key
All-without_key material [] h = tt
All-without_key material (l ∷ lines) h =
    elim (Bool-cases (text_eq (line_key_material l) material)) [
      | inl e ↦ rw e (All-without_key material lines h.1)
      | inr e ↦ rw e (h.0, All-without_key material lines h.1)
    ]
