-- ===== src/Webui/Server/Lasting.antt =====
-- What becomes of the sessions of an account that is disabled.
use ngxborg.Base.{◌≡◌, refl, ap, ◌∙◌, false, some}
use ngxborg.Text.{Text}
use ngxborg.System.Exec.{Host}
use ngxborg.Webui.Http.{Request}
use ngxborg.Webui.Session.{Session, lookup}
use ngxborg.Webui.Server.{Server, Route, admin_only, handler, with_admin, with_auth}
use ngxborg.Webui.Server.Granted.{with_auth-sessions}

module _ (host : Host) where
  served :
      (later : Route) (q : Request) (t : Server) (token : Text) (sess : Session)
      → q.cookie ≡ some token
      → lookup t.world.now token t.sessions ≡ some sess
      → admin_only later ≡ false
      → let done = handler host later sess q t.world in
        with_auth host later q t ≡ (record t { world = done.0 }, done.1)
  unfolding with_auth with_admin
  served later q t token sess c h o = rw (c, h, o) refl

  -- After any request behind `withAuth`, one that disables or deletes the account of the session
  -- included, a session that is not over is as good as before: with its cookie every route that is
  -- not for admins runs its handler for the account.
  pub with_auth_lasting :
      (route later : Route) (r q : Request) (s : Server) (token : Text) (sess : Session)
      → q.cookie ≡ some token
      → lookup (with_auth host route r s).0.world.now token s.sessions ≡ some sess
      → admin_only later ≡ false
      → let t = (with_auth host route r s).0 in
        let done = handler host later sess q t.world in
        with_auth host later q t ≡ (record t { world = done.0 }, done.1)
  with_auth_lasting route later r q s token sess c h o =
      let t = (with_auth host route r s).0 in
      served later q t token sess c
        (ap (λ ss. lookup t.world.now token ss) (with_auth-sessions host route r s) ∙ h) o
