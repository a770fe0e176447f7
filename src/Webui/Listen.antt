-- ===== src/Webui/Listen.antt =====
-- internal/webui/server.go: Serve, ServeWithCerts and serveWithCerts up to the listener, whose end
-- is the parameter `Net`.
use ngxborg.Base.{◌||◌, [], Option, none, some, if◌then◌else◌, is_nil}
use ngxborg.Text.{Text, codes, text_eq}
use ngxborg.Machine.Error.{tls_needs_files}
use ngxborg.Machine.World.{M, fail, ◌>>=◌}
use ngxborg.Webui.Cert.{Crypto, Pair, load_pair, ensure_cert}

-- What the listener is given: its address, and the certificate if it speaks TLS.
pub record Listener : Type 0 where
  pub addr : Text
  pub pair : Option Pair

pub record Net : Type 0 where
  -- ListenAndServe and ListenAndServeTLS, until they end
  pub listen : Listener → M (Unit {0})

module _ (crypto : Crypto) (net : Net) where
  abbrev with_pair : Text → M Pair → M (Unit {0})
  with_pair addr m = do pair ← m; net.listen (record { addr = addr; pair = some pair })

  unfoldable pub serve_with_certs : Text → Text → Text → Text → M (Unit {0})
  serve_with_certs addr tls_mode cert_file key_file =
      if text_eq tls_mode (codes "none")
      then net.listen (record { addr = addr; pair = none })
      else if text_eq tls_mode (codes "custom")
      then if is_nil cert_file || is_nil key_file
        then fail tls_needs_files
        else with_pair addr (load_pair crypto cert_file key_file)
      else with_pair addr (ensure_cert crypto)

  unfoldable pub serve : Text → Text → M (Unit {0})
  serve addr tls_mode = serve_with_certs addr tls_mode [] []
