-- ===== src/Webui/Cert/Kept.antt =====
-- The certificate is made once.
use ngxborg.Base.{◌≡◌, ◌≢◌, refl, subst, sym, ap, ◌∙◌, false, [], some, arith}
use ngxborg.Text.{Text, text_eq, has_prefix, split, split_from}
use ngxborg.Text.FilePath.{components, clean_from, clean_step, pops}
use ngxborg.Machine.Fs.{Node, path_eq, stat}
use ngxborg.Machine.Error.{Error, Result, ok, err}
use ngxborg.Machine.World.{World, M, lift, ◌>>◌}
use ngxborg.Machine.World.Inversion.{>>=-ok}
use ngxborg.Machine.Os.{os_mkdir_all, os_read_file, os_write_file}
use ngxborg.Machine.Os.Laws.{stat-put}
use ngxborg.Machine.Os.Writes.{IsFile, os_write_file-ok, os_read_file-file}
use ngxborg.Machine.Os.Renames.{put_there}
use ngxborg.Webui.Cert.{
  Crypto, Pair, cert_dir, cert_path, key_path, key_pair, load_pair, generate_self_signed, make_cert,
  ensure_cert,
}

cert_named : components cert_path ≢ []
unfolding cert_path components clean_from clean_step pops split split_from has_prefix text_eq
cert_named e = cc

key_named : components key_path ≢ []
unfolding key_path components clean_from clean_step pops split split_from has_prefix text_eq
key_named e = cc

apart : path_eq (components key_path) (components cert_path) ≡ false
unfolding cert_path key_path components clean_from clean_step pops split split_from has_prefix
    text_eq path_eq
apart = refl

module _ (crypto : Crypto) where
  load_pair_reads : (a b : Text) (w : World) → (load_pair crypto a b w).0 ≡ w
  unfolding load_pair os_read_file
  load_pair_reads a b w = ground arith

  load_pair-files :
      (cert key : Text) (pair : Pair) (w : World) (n m : Node)
      → key_pair crypto cert key ≡ ok pair
      → stat (components cert_path) w.fs ≡ some n
      → IsFile cert n
      → stat (components key_path) w.fs ≡ some m
      → IsFile key m
      → load_pair crypto cert_path key_path w ≡ (w, ok pair)
  unfolding load_pair
  load_pair-files cert key pair w n m k en fn em fm =
      rw (os_read_file-file cert_path cert w n en fn, os_read_file-file key_path key w m em fm, k)
        refl

  written :
      (cert key : Text) (pair : Pair) (w : World)
      → (os_write_file cert_path cert 0o644 w).1 ≡ ok tt
      → let v = (os_write_file cert_path cert 0o644 w).0 in
        (os_write_file key_path key 0o600 v).1 ≡ ok tt
        → key_pair crypto cert key ≡ ok pair
        → let u = (os_write_file key_path key 0o600 v).0 in
          load_pair crypto cert_path key_path u ≡ (u, ok pair)
  written cert key pair w first second k =
      let c = os_write_file-ok cert_path cert 0o644 w first in
      let v = (os_write_file cert_path cert 0o644 w).0 in
      let d = os_write_file-ok key_path key 0o600 v second in
      load_pair-files cert key pair (os_write_file key_path key 0o600 v).0 c.0 d.0 k
        (ap (λ x. stat (components cert_path) x.fs) d.2
          ∙ stat-put (components key_path) (components cert_path) d.0 v.fs key_named
          ∙ rw apart (
              ap (λ x. stat (components cert_path) x.fs) c.2
              ∙ put_there (components cert_path) c.0 w.fs cert_named))
        c.1
        (ap (λ x. stat (components key_path) x.fs) d.2
          ∙ put_there (components key_path) d.0 v.fs key_named)
        d.1

  abbrev write_pair : Pair → M Pair
  write_pair made = do
    os_write_file cert_path made.cert 0o644
    os_write_file key_path made.key 0o600
    lift (key_pair crypto made.cert made.key)

  write_pair-load_pair :
      (made pair : Pair) (w : World)
      → (write_pair made w).1 ≡ ok pair
      → load_pair crypto cert_path key_path (write_pair made w).0 ≡ ((write_pair made w).0, ok pair)
  write_pair-load_pair made pair w h =
      let second = os_write_file key_path made.key 0o600 in
      let last = lift (key_pair crypto made.cert made.key) in
      let one = >>=-ok (os_write_file cert_path made.cert 0o644) (λ _. second >> last) w h in
      let v = (os_write_file cert_path made.cert 0o644 w).0 in
      let h' : ((second >> last) v).1 ≡ ok pair = ap (λ r. r.1) (sym one.2) ∙ h in
      let two = >>=-ok second (λ _. last) v h' in
      let k : key_pair crypto made.cert made.key ≡ ok pair = ap (λ r. r.1) (sym two.2) ∙ h' in
      subst (λ r. load_pair crypto cert_path key_path r.0 ≡ (r.0, ok pair)) (sym (one.2 ∙ two.2))
        (written made.cert made.key pair w one.1 two.1 k)

  make_cert-load_pair :
      (pair : Pair) (w : World)
      → (make_cert crypto w).1 ≡ ok pair
      → load_pair crypto cert_path key_path (make_cert crypto w).0
        ≡ ((make_cert crypto w).0, ok pair)
  unfolding make_cert
  make_cert-load_pair pair w h =
      let stored = λ (made : Pair). os_mkdir_all cert_dir 0o750 >> write_pair made in
      let one = >>=-ok (generate_self_signed crypto) stored w h in
      let v = (generate_self_signed crypto w).0 in
      let h' : (stored one.0 v).1 ≡ ok pair = ap (λ r. r.1) (sym one.2) ∙ h in
      let two = >>=-ok (os_mkdir_all cert_dir 0o750) (λ _. write_pair one.0) v h' in
      let u = (os_mkdir_all cert_dir 0o750 v).0 in
      subst (λ r. load_pair crypto cert_path key_path r.0 ≡ (r.0, ok pair)) (sym (one.2 ∙ two.2))
        (write_pair-load_pair one.0 pair u (ap (λ r. r.1) (sym two.2) ∙ h'))

  ensure_cert-loaded :
      (pair : Pair) (w v : World)
      → load_pair crypto cert_path key_path w ≡ (v, ok pair)
      → ensure_cert crypto w ≡ (v, ok pair)
  unfolding ensure_cert
  ensure_cert-loaded pair w v e = rw e refl

  ensure_cert-made :
      (x : Error) (w v : World)
      → load_pair crypto cert_path key_path w ≡ (v, err x)
      → ensure_cert crypto w ≡ make_cert crypto v
  unfolding ensure_cert
  ensure_cert-made x w v e = rw e refl

  again :
      (pair : Pair) (w : World) (r : World × Result Pair)
      → load_pair crypto cert_path key_path w ≡ r
      → (ensure_cert crypto w).1 ≡ ok pair
      → load_pair crypto cert_path key_path (ensure_cert crypto w).0
        ≡ ((ensure_cert crypto w).0, ok pair)
  again pair w (v, ok found) e h =
      let same : v ≡ w = sym (ap (λ r. r.0) e) ∙ load_pair_reads cert_path key_path w in
      let done = ensure_cert-loaded found w v e in
      let found_is : found ≡ pair = ground (arith, sym (ap (λ r. r.1) done) ∙ h) in
      subst (λ u. load_pair crypto cert_path key_path u ≡ (u, ok pair)) (sym (ap (λ r. r.0) done))
        (ap (load_pair crypto cert_path key_path) same ∙ e ∙ ap (λ p. (v, ok p)) found_is)
  again pair w (v, err x) e h =
      let made = ensure_cert-made x w v e in
      subst (λ r. load_pair crypto cert_path key_path r.0 ≡ (r.0, ok pair)) (sym made)
        (make_cert-load_pair pair v (ap (λ r. r.1) (sym made) ∙ h))

  -- Whenever ensureCert succeeds, whether it found a certificate or made one, a second call gives the
  -- same certificate and changes nothing.
  pub ensure_cert_again :
      (pair : Pair) (w : World)
      → (ensure_cert crypto w).1 ≡ ok pair
      → ensure_cert crypto (ensure_cert crypto w).0 ≡ ((ensure_cert crypto w).0, ok pair)
  ensure_cert_again pair w h =
      ensure_cert-loaded pair (ensure_cert crypto w).0 (ensure_cert crypto w).0
        (again pair w (load_pair crypto cert_path key_path w) refl h)
