-- ===== src/Webui/Cert.antt =====
-- internal/webui/cert.go: the certificate that the web UI makes for itself. The libraries for keys
-- and certificates are not the program's code: their functions are the parameter `Crypto`.
pub mod Kept
use ngxborg.Base.{ℕ, ◌-◌, ◌^◌, Bool, true, false, List, [], ◌∷◌, Option, none, some, if◌then◌else◌}
use ngxborg.Text.{Text, codes}
use ngxborg.Text.FilePath.{join_path}
use ngxborg.Machine.Error.{Error, no_cert, Result, ok, err}
use ngxborg.Machine.World.{World, M, pure, lift, gets, guard, attempt, or_fail, ◌>>=◌, ◌>>◌}
use ngxborg.Machine.Os.{os_mkdir_all, os_read_file, os_write_file}
use ngxborg.System.Secret.{rand_int}

-- The fields of the x509.Certificate that is filled in; a self-signed one, for the server's side.
pub record Template : Type 0 where
  pub serial : ℕ
  pub common_name : Text
  pub not_before : ℕ
  -- not after: so many years from this time
  pub made_at : ℕ
  pub years : ℕ
  pub is_ca : Bool

pub record Crypto : Type 0 where
  -- ecdsa.GenerateKey, from the machine's randomness
  pub generate_key : World → Option Text
  pub create_certificate : Template → Text → Option Text
  pub marshal_key : Text → Option Text
  pub pem_encode : Text → Text → Text
  -- tls.X509KeyPair gives no error
  pub is_pair : Text → Text → Bool

-- A tls.Certificate, by the two files' contents.
pub record Pair : Type 0 where
  pub cert : Text
  pub key : Text

unfoldable pub cert_dir : Text
cert_dir = codes "/etc/ngxborg/certs"

-- filepath.Join(certDir, "web.crt")
unfoldable pub cert_path : Text
cert_path = codes "/etc/ngxborg/certs/web.crt"

-- filepath.Join(certDir, "web.key")
unfoldable pub key_path : Text
key_path = codes "/etc/ngxborg/certs/web.key"

module _ (crypto : Crypto) where
  unfoldable pub key_pair : Text → Text → Result Pair
  key_pair cert key =
      if crypto.is_pair cert key then ok (record { cert = cert; key = key }) else err no_cert

  -- tls.LoadX509KeyPair
  unfoldable pub load_pair : Text → Text → M Pair
  load_pair cert_file key_file = do
    cert ← os_read_file cert_file
    key ← os_read_file key_file
    lift (key_pair cert key)

  unfoldable pub generate_self_signed : M Pair
  generate_self_signed = do
    drawn ← gets crypto.generate_key
    priv ← or_fail no_cert drawn
    serial ← rand_int (2 ^ 128)
    now ← gets (λ w. w.now)
    let template : Template = record {
      serial = serial;
      common_name = codes "ngxborg";
      not_before = now - 3600;
      made_at = now;
      years = 10;
      is_ca = true;
    }
    der ← or_fail no_cert (crypto.create_certificate template priv)
    key_der ← or_fail no_cert (crypto.marshal_key priv)
    pure (record {
      cert = crypto.pem_encode (codes "CERTIFICATE") der;
      key = crypto.pem_encode (codes "EC PRIVATE KEY") key_der;
    })

  -- What ensureCert does when no pair can be loaded.
  unfoldable pub make_cert : M Pair
  make_cert = do
    made ← generate_self_signed
    os_mkdir_all cert_dir 0o750
    os_write_file cert_path made.cert 0o644
    os_write_file key_path made.key 0o600
    lift (key_pair made.cert made.key)

  abbrev or_make : Result Pair → M Pair
  or_make (ok pair) = pure pair
  or_make (err e) = make_cert

  unfoldable pub ensure_cert : M Pair
  ensure_cert = do loaded ← attempt (load_pair cert_path key_path); or_make loaded
