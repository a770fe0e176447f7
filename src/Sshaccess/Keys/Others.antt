-- ===== src/Sshaccess/Keys/Others.antt =====
-- What the operations on keys leave as it is: everything apart from the account's home directory.
use ngxborg.Base.{
  ℕ, ◌≡◌, refl, sym, ap, ◌∙◌, Bool, false, List, [], ◌∷◌, ◌++◌, append_assoc, some, All, arith,
}
use ngxborg.Text.{Text, codes, contains_char}
use ngxborg.Text.FilePath.{components, join_path, dir_of}
use ngxborg.Text.FilePath.Laws.{IsSegment}
use ngxborg.Text.FilePath.Standard.{
  path_of, components-path_of, join_path-path_of, dir_of-path_of, path_of-suffix, segments-snoc,
}
use ngxborg.Machine.Accounts
use ngxborg.Machine.Fs.{is_above, stat}
use ngxborg.Machine.Fs.Laws.{is_above-longer, path_eq-longer, is_above-apart}
use ngxborg.Machine.Error.{Result, ok, err, no_such_key}
use ngxborg.Machine.World.{World, User, M, pure, continue, ◌>>=◌, ◌>>◌}
use ngxborg.Machine.World.Inversion.{>>=-ok}
use ngxborg.Machine.Os.{os_mkdir_all, os_chown, os_write_file, os_rename, os_read_file}
use ngxborg.Machine.Os.Frames.{
  Spares, step-Spares, same_tree-Spares, >>=-Spares, >>-Spares, guard-Spares, pure-Spares,
  continue-same, stat-os_mkdir_all, stat-os_chown, stat-os_write_file, stat-os_rename,
}
use ngxborg.Posix.Account.{home_dir, uid_gid}
use ngxborg.Sshaccess.Files.{atomic_write, write_lines, read_lines, body_of}
use ngxborg.Sshaccess.PublicKey.{PublicKey, validate_public_key_line}
use ngxborg.Sshaccess.Keys.{
  Located, authorized_keys_path, add_key, remove_key, list_keys, with_key, without_key, line_for,
  parse_lines,
}

ssh-IsSegment : IsSegment (codes ".ssh")
unfolding contains_char
ssh-IsSegment = record { no_slash = refl; named = λ e. cc; not_dot = λ e. cc; not_dots = λ e. cc }

keys-IsSegment : IsSegment (codes "authorized_keys")
unfolding contains_char
keys-IsSegment = record { no_slash = refl; named = λ e. cc; not_dot = λ e. cc; not_dots = λ e. cc }

tmp-IsSegment : IsSegment (codes "authorized_keys" ++ codes ".tmp")
unfolding contains_char
tmp-IsSegment = record { no_slash = refl; named = λ e. cc; not_dot = λ e. cc; not_dots = λ e. cc }

module _ (c x : Text) (hs xs : List Text) (plain : All IsSegment (c ∷ hs))
    (not_below : is_above (c ∷ hs) (x ∷ xs) ≡ false)
    (not_above : is_above (x ∷ xs) (c ∷ hs) ≡ false) where
  abbrev q : List Text
  q = x ∷ xs

  abbrev home : Text
  home = path_of (c ∷ hs)

  abbrev ssh : List Text
  ssh = hs ++ codes ".ssh" ∷ []

  ssh_plain : All IsSegment (c ∷ ssh)
  ssh_plain = segments-snoc (c ∷ hs) (codes ".ssh") plain ssh-IsSegment

  ssh_dir : join_path (home ∷ codes ".ssh" ∷ []) ≡ path_of (c ∷ ssh)
  ssh_dir = join_path-path_of c hs (codes ".ssh") plain ssh-IsSegment

  -- The file of keys.
  abbrev file : Text
  file = path_of (c ∷ ssh ++ codes "authorized_keys" ∷ [])

  file_path : join_path (path_of (c ∷ ssh) ∷ codes "authorized_keys" ∷ []) ≡ file
  file_path = join_path-path_of c ssh (codes "authorized_keys") ssh_plain keys-IsSegment

  -- A name in the directory .ssh, and what that means for `q`.
  in_ssh :
      (d : Text)
      → IsSegment d
      → components (path_of (c ∷ ssh ++ d ∷ [])) ≡ (c ∷ hs) ++ codes ".ssh" ∷ d ∷ []
  in_ssh d h =
      components-path_of c (ssh ++ d ∷ []) (segments-snoc (c ∷ ssh) d ssh_plain h)
      ∙ ap (λ p. c ∷ p) (append_assoc hs (codes ".ssh" ∷ []) (d ∷ []))

  chown_file-Spares :
      (d : Text) → IsSegment d → (u g : ℕ) → Spares q (os_chown (path_of (c ∷ ssh ++ d ∷ [])) u g)
  chown_file-Spares d h u g = step-Spares (os_chown (path_of (c ∷ ssh ++ d ∷ [])) u g) (λ w.
      stat-os_chown (path_of (c ∷ ssh ++ d ∷ [])) u g w q (rw (in_ssh d h) (λ e. cc))
        (rw (in_ssh d h) (path_eq-longer (c ∷ hs) (codes ".ssh" ∷ d ∷ []) q not_below)))

  mkdir_ssh-Spares : (mode : ℕ) → Spares q (os_mkdir_all (path_of (c ∷ ssh)) mode)
  mkdir_ssh-Spares mode = step-Spares (os_mkdir_all (path_of (c ∷ ssh)) mode) (λ w.
      stat-os_mkdir_all (path_of (c ∷ ssh)) mode w q (
        rw (components-path_of c ssh ssh_plain)
          (is_above-apart q (c ∷ hs) (codes ".ssh" ∷ []) not_below not_above)))

  chown_ssh-Spares : (u g : ℕ) → Spares q (os_chown (path_of (c ∷ ssh)) u g)
  chown_ssh-Spares u g = step-Spares (os_chown (path_of (c ∷ ssh)) u g) (λ w.
      stat-os_chown (path_of (c ∷ ssh)) u g w q (rw (components-path_of c ssh ssh_plain) (λ e. cc))
        (rw (components-path_of c ssh ssh_plain)
          (path_eq-longer (c ∷ hs) (codes ".ssh" ∷ []) q not_below)))

  -- The file that is written first.
  tmp_path :
      file ++ codes ".tmp" ≡ path_of (c ∷ ssh ++ (codes "authorized_keys" ++ codes ".tmp") ∷ [])
  tmp_path = path_of-suffix (c ∷ ssh) (codes "authorized_keys") (codes ".tmp")

  tmp_in_ssh :
      components (file ++ codes ".tmp")
      ≡ (c ∷ hs) ++ codes ".ssh" ∷ (codes "authorized_keys" ++ codes ".tmp") ∷ []
  tmp_in_ssh =
      ap components tmp_path ∙ in_ssh (codes "authorized_keys" ++ codes ".tmp") tmp-IsSegment

  mkdir_dir-Spares : Spares q (os_mkdir_all (dir_of file) 0o755)
  mkdir_dir-Spares =
      rw (dir_of-path_of c ssh (codes "authorized_keys") ssh_plain keys-IsSegment)
        (mkdir_ssh-Spares 0o755)

  write_lines-Spares : (lines : List Text) → Spares q (write_lines file lines)
  unfolding write_lines atomic_write
  write_lines-Spares lines = >>-Spares mkdir_dir-Spares (
      >>-Spares
        (step-Spares (os_write_file (file ++ codes ".tmp") (body_of lines) 0o600) (λ w.
          stat-os_write_file (file ++ codes ".tmp") (body_of lines) 0o600 w q
            (rw tmp_in_ssh (λ e. cc)) (rw tmp_in_ssh (path_eq-longer (c ∷ hs) _ q not_below))))
        (step-Spares (os_rename (file ++ codes ".tmp") file) (λ w.
          stat-os_rename (file ++ codes ".tmp") file w x xs
            (rw tmp_in_ssh (is_above-longer (c ∷ hs) _ q not_below))
            (rw (in_ssh (codes "authorized_keys") keys-IsSegment)
              (is_above-longer (c ∷ hs) _ q not_below)))))

  read_lines-Spares : Spares q (read_lines file)
  unfolding read_lines os_read_file
  read_lines-Spares = same_tree-Spares (read_lines file) (λ w. ground arith)

  uid_gid-Spares : (name : Text) → Spares q (uid_gid name)
  unfolding uid_gid
  uid_gid-Spares name = same_tree-Spares (uid_gid name) (λ w. ground arith)

  -- authorizedKeysPath with the home directory found.
  located_in : Text → M Located
  located_in name = do
    ids ← uid_gid name
    os_mkdir_all (path_of (c ∷ ssh)) 0o700
    os_chown (path_of (c ∷ ssh)) ids.0 ids.1
    pure (record { path = file; uid = ids.0; gid = ids.1 })

  located_in-Spares : (name : Text) → Spares q (located_in name)
  unfolding located_in
  located_in-Spares name = >>=-Spares (uid_gid-Spares name) (λ ids.
      >>-Spares (mkdir_ssh-Spares 0o700) (
        >>-Spares (chown_ssh-Spares ids.0 ids.1)
          (pure-Spares (record { path = file; uid = ids.0; gid = ids.1 }))))

  -- What the last of the three steps gives.
  made_path :
      (ids : ℕ × ℕ) (m k : M (Unit {0})) (v : World) (l : Located)
      → ((m >> (k >> pure (record { path = file; uid = ids.0; gid = ids.1 }))) v).1 ≡ ok l
      → l.path ≡ file
  made_path ids m k v l e =
      let end : M Located = pure (record { path = file; uid = ids.0; gid = ids.1 }) in
      let one = >>=-ok m (λ _. k >> end) v e in
      let two = >>=-ok k (λ _. end) (m v).0 (ap (λ r. r.1) (sym one.2) ∙ e) in
      let same : ok (record { path = file; uid = ids.0; gid = ids.1 }) ≡ ok l =
        ap (λ r. r.1) (sym two.2) ∙ ap (λ r. r.1) (sym one.2) ∙ e in
      cc

  located_in-path :
      (name : Text) (w : World) (l : Located) → (located_in name w).1 ≡ ok l → l.path ≡ file
  unfolding located_in
  located_in-path name w l e =
      let one = >>=-ok (uid_gid name) _ w e in
      made_path one.0 (os_mkdir_all (path_of (c ∷ ssh)) 0o700)
        (os_chown (path_of (c ∷ ssh)) one.0.0 one.0.1) (uid_gid name w).0 l
        (ap (λ r. r.1) (sym one.2) ∙ e)

  module _ (name : Text) (w : World) (usr : User) (found : Accounts.lookup_user w name ≡ some usr)
      (homed : usr.home ≡ home) where
    located_at : authorized_keys_path name w ≡ located_in name w
    unfolding authorized_keys_path home_dir located_in
    located_at = rw (found, homed, ssh_dir, file_path) refl

    with_file-same {κ} :
        {B : Type κ} (k : Located → M B)
        → ((l : Located) → l.path ≡ file → Spares q (k l))
        → stat q ((authorized_keys_path name >>= k) w).0.fs ≡ stat q w.fs
    with_file-same k h = rw located_at (
        continue-same q (located_in name w).1 k (located_in name w).0 w
          ((located_in-Spares name).spares w) (λ l e. h l (located_in-path name w l e)))

    validated_same {κ} :
        {B : Type κ} (r : Result PublicKey) (f : PublicKey → M B)
        → ((k : PublicKey) → stat q (f k w).0.fs ≡ stat q w.fs)
        → stat q (continue r f w).0.fs ≡ stat q w.fs
    validated_same (ok k) f h = h k
    validated_same (err e) f h = refl

    pub add_key_same :
        (repo_path line : Text) (append_only : Bool)
        → stat q (add_key name repo_path line append_only w).0.fs ≡ stat q w.fs
    unfolding add_key
    add_key_same repo_path line append_only = validated_same (validate_public_key_line line) _ (λ k.
        with_file-same _ (λ l e. rw e (
          >>=-Spares read_lines-Spares (λ existing.
            >>-Spares
              (write_lines-Spares
                (with_key k.key_material (line_for repo_path append_only k) existing))
              (chown_file-Spares (codes "authorized_keys") keys-IsSegment l.uid l.gid)))))

    pub remove_key_same : (material : Text) → stat q (remove_key name material w).0.fs ≡ stat q w.fs
    unfolding remove_key
    remove_key_same material = with_file-same _ (λ l e. rw e (
        >>=-Spares read_lines-Spares (λ existing.
          >>-Spares (guard-Spares (without_key material existing).met no_such_key) (
            >>-Spares (write_lines-Spares (without_key material existing).out)
              (chown_file-Spares (codes "authorized_keys") keys-IsSegment l.uid l.gid)))))

    pub list_keys_same : stat q (list_keys name w).0.fs ≡ stat q w.fs
    unfolding list_keys
    list_keys_same =
        with_file-same _
          (λ l e. rw e (>>=-Spares read_lines-Spares (λ lines. pure-Spares (parse_lines lines))))
