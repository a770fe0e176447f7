-- ===== src/Webui/Server/Granted.antt =====
-- No session without a login.
use ngxborg.Base.{
  ◌+◌, ◌≤◌, ◌≡◌, ◌⊎◌, refl, sym, ap, subst, ◌∙◌, [], ◌∷◌, Option, none, some, arith, inl, inr,
  Bool-cases, is_nil, ◌||◌,
}
use ngxborg.Text.{Text}
use ngxborg.Machine.Error.{Result, ok, err}
use ngxborg.Machine.World.{World}
use ngxborg.System.Exec.{Host}
use ngxborg.Posix.Groups.{is_tenant, is_admin}
use ngxborg.Authpam.{Pam, authenticate}
use ngxborg.Webui.Http.{Form, Request}
use ngxborg.Webui.Session.{
  Session, Sessions, session_ttl, new_session, find_session, set_session, lookup, random_hex,
}
use ngxborg.Webui.Server.{
  Server, Route, with_auth, handle_login, handle_logout, handle_mcp, forget, start_session,
  login_as, login_form,
}
use ngxborg.Webui.Server.Runs.{
  Step, login, logout, ask, call, reaped, elsewhere, Reach, here, next, IsAccepted, session_from,
  IsGranted,
}
use ngxborg.Webui.Session.Each.{
  AllIn, AllIn-destroy, AllIn-reap, AllIn-find_session, random_hex-now,
}

AllIn-forget :
    (P : Session → Type 0) (c : Option Text) (ss : Sessions) → AllIn P ss → AllIn P (forget c ss)
AllIn-forget P none ss h = h
AllIn-forget P (some token) ss h = AllIn-destroy P token ss h

module _ (host : Host) where
  pub with_auth-sessions :
      (route : Route) (r : Request) (s : Server)
      → (with_auth host route r s).0.sessions ≡ s.sessions
  unfolding with_auth
  with_auth-sessions route r s = ground arith

module _ (host : Host) (pam : Pam) where
  -- A login leaves the store as it is, or starts a session for the form that it accepts.
  abbrev IsStarted : Server → Sessions → Type 0
  IsStarted s ss =
      (token : Text) × (f : Form) × IsAccepted host pam s f
      × (ss ≡ set_session token (session_from host pam s f) s.sessions)

  started :
      (s : Server) (f : Form) (w : World) (made : Result Text)
      → random_hex 32 s.world ≡ (w, made)
      → IsAccepted host pam s f
      → let ss = (start_session f (is_admin s.world f.username) s (w, made)).0.sessions in
        (ss ≡ s.sessions) ⊎ IsStarted s ss
  started s f w (err e) h a = inl refl
  started s f w (ok token) h a = inr (
    token,
    f,
    a,
    ap
        (λ now.
          set_session token (new_session now f.username (is_admin s.world f.username)) s.sessions)
        (ap (λ x. x.0.now) (sym h) ∙ random_hex-now 32 s.world),
  )

  login_as-sessions :
      (s : Server) (f : Form)
      → ((login_as pam f s).0.sessions ≡ s.sessions) ⊎ IsStarted s (login_as pam f s).0.sessions
  login_as-sessions s f = elim (Bool-cases (is_nil f.username || is_nil f.password)) [
    | inl e ↦ rw e (inl refl)
    | inr e ↦ rw e (elim (Bool-cases (is_tenant s.world f.username)) [
      | inr t ↦ rw t (inl refl)
      | inl t ↦ rw t (elim (Bool-cases (authenticate pam s.world f.username f.password)) [
        | inr a ↦ rw a (inl refl)
        | inl a ↦ rw a (started s f (random_hex 32 s.world).0 (random_hex 32 s.world).1 refl (t, a))
      ])
    ])
  ]

  login_form-sessions :
      (s : Server) (body : Option Form)
      → ((login_form pam s body).0.sessions ≡ s.sessions)
        ⊎ IsStarted s (login_form pam s body).0.sessions
  login_form-sessions s none = inl refl
  login_form-sessions s (some f) = login_as-sessions s f

  handle_login-sessions :
      (r : Request) (s : Server)
      → ((handle_login pam r s).0.sessions ≡ s.sessions)
        ⊎ IsStarted s (handle_login pam r s).0.sessions
  unfolding handle_login
  handle_login-sessions r s = login_form-sessions s r.body

  abbrev Authentic : Server → Server → Type 0
  Authentic start s = AllIn (IsGranted host pam start s) s.sessions

  AllIn-since :
      (start s t : Server) (ss : Sessions)
      → Step host pam s t
      → AllIn (IsGranted host pam start s) ss
      → AllIn (IsGranted host pam start t) ss
  AllIn-since start s t [] st h = tt
  AllIn-since start s t ((token, sess) ∷ ss) st h = (
    record {
      at = h.0.at;
      form = h.0.form;
      before = h.0.before;
      since = next h.0.since st;
      accepted = h.0.accepted;
      begun = h.0.begun;
    },
    AllIn-since start s t ss st h.1,
  )

  login-Authentic :
      (start s : Server) (r : Request)
      → Reach host pam start s
      → Authentic start s
      → Authentic start (handle_login pam r s).0
  unfolding set_session
  login-Authentic start s r before h =
      let t = (handle_login pam r s).0 in
      let kept = AllIn-since start s t s.sessions (login r s) h in
      elim (handle_login-sessions r s) [
        | inl e ↦ subst (AllIn (IsGranted host pam start t)) (sym e) kept
        | inr (token, f, a, e) ↦ subst (AllIn (IsGranted host pam start t)) (sym e) (
          record {
            at = s;
            form = f;
            before = before;
            since = next here (login r s);
            accepted = a;
            begun = refl;
          },
          AllIn-destroy (IsGranted host pam start t) token s.sessions kept,
        )
      ]

  Step-Authentic :
      (start : Server) {s t : Server}
      → Reach host pam start s
      → Step host pam s t
      → Authentic start s
      → Authentic start t
  unfolding handle_logout handle_mcp
  Step-Authentic start before (login r s) h = login-Authentic start s r before h
  Step-Authentic start before (logout r s) h =
      AllIn-forget _ r.cookie s.sessions (AllIn-since start s _ s.sessions (logout r s) h)
  Step-Authentic start before (ask route r s) h =
      subst (AllIn (IsGranted host pam start _)) (sym (with_auth-sessions host route r s))
        (AllIn-since start s _ s.sessions (ask route r s) h)
  Step-Authentic start before (call tool s) h = AllIn-since start s _ s.sessions (call tool s) h
  Step-Authentic start before (reaped s) h =
      AllIn-reap _ s.world.now s.sessions (AllIn-since start s _ s.sessions (reaped s) h)
  Step-Authentic start before (elsewhere w s) h = AllIn-since start s _ s.sessions (elsewhere w s) h

  Reach-Authentic :
      (start : Server) {s : Server}
      → start.sessions ≡ []
      → Reach host pam start s
      → Authentic start s
  Reach-Authentic start e here = subst (AllIn (IsGranted host pam start start)) (sym e) tt
  Reach-Authentic start e (next r st) = Step-Authentic start r st (Reach-Authentic start e r)

  -- However logins, logouts, requests, tools' calls, rounds of the reaper and changes of the machine
  -- follow on a start of the server, with no sessions: every session in the store was started by a
  -- login on the way, for an account that was a tenant and a password that PAM accepted at that
  -- time, with the admin rights that the account had then.
  pub Reach-IsGranted :
      (start s : Server) (token : Text) (sess : Session)
      → start.sessions ≡ []
      → Reach host pam start s
      → find_session token s.sessions ≡ some sess
      → IsGranted host pam start s sess
  Reach-IsGranted start s token sess e r f =
      AllIn-find_session (IsGranted host pam start s) token s.sessions sess
        (Reach-Authentic start e r) f

  -- There was a login on the way, not longer ago than a session lasts.
  pub record IsRecent (start s : Server) (sess : Session) : Type 0 where
    pub granted : IsGranted host pam start s sess
    pub in_time : s.world.now ≤ granted.at.world.now + session_ttl

  pub found-IsRecent :
      (start s : Server) (token : Text) (sess : Session)
      → start.sessions ≡ []
      → Reach host pam start s
      → lookup s.world.now token s.sessions ≡ some sess
      → IsRecent start s sess
  unfolding lookup
  found-IsRecent start s token sess e r f =
      let found : find_session token s.sessions ≡ some sess = ground (arith, f) in
      let g = Reach-IsGranted start s token sess e r found in
      record { granted = g; in_time = ground (arith, f, found, g.begun) }
