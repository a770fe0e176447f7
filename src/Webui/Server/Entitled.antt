-- ===== src/Webui/Server/Entitled.antt =====
-- Who gets a request done.
use ngxborg.Base.{
  ◌≡◌, ◌⊎◌, refl, sym, ap, ◌∙◌, true, false, [], ◌∷◌, Option, none, some, arith, inl, inr,
  Bool-cases, Option-cases, is_nil,
}
use ngxborg.Text.{Text, text_eq}
use ngxborg.Text.Search.{text_eq_iff}
use ngxborg.System.Exec.{Host}
use ngxborg.Posix.Groups.{is_admin}
use ngxborg.Authpam.{Pam}
use ngxborg.Webui.Http.{Request}
use ngxborg.Webui.Session.{Session}
use ngxborg.Webui.Server.{Server, Route, admin_only, with_auth}
use ngxborg.Webui.Server.Access.{
  session_of, named_tenant, with_auth_unknown, with_auth_not_admin, with_auth_forbidden,
  session_for,
}
use ngxborg.Webui.Server.Runs.{Reach}
use ngxborg.Webui.Server.Granted.{IsRecent, found-IsRecent}

module _ (host : Host) (pam : Pam) where
  -- The request is answered by 401 or 403, and nothing changes.
  abbrev pub IsRefused : Route → Request → Server → Type 0
  IsRefused route r s =
      ((with_auth host route r s).0 ≡ s)
      × (((with_auth host route r s).1.status ≡ 401) ⊎ ((with_auth host route r s).1.status ≡ 403))

  -- The account of the session logged in as an admin.
  abbrev IsAdminOf : (start s : Server) (sess : Session) → IsRecent host pam start s sess → Type 0
  IsAdminOf start s sess e = is_admin e.granted.at.world e.granted.form.username ≡ true

  pub record IsEntitled (start s : Server) (route : Route) (r : Request) (sess : Session)
      : Type 0 where
    pub recent : IsRecent host pam start s sess
    -- routes for admins
    pub admits : (admin_only route ≡ false) ⊎ IsAdminOf start s sess recent
    -- the account that the request names, if it names one
    pub own :
        (named_tenant route r ≡ [])
        ⊎ ((named_tenant route r ≡ sess.username) ⊎ IsAdminOf start s sess recent)

  IsAdminOf-admin :
      (start s : Server) (sess : Session) (e : IsRecent host pam start s sess)
      → sess.admin ≡ true
      → IsAdminOf start s sess e
  IsAdminOf-admin start s sess e h = ap (λ x. x.admin) (sym e.granted.begun) ∙ h

  is_nil-nil : (t : Text) → is_nil t ≡ true → t ≡ []
  is_nil-nil [] h = refl
  is_nil-nil (c ∷ t) h = absurd (ground (arith, h))

  judged :
      (start s : Server) (route : Route) (r : Request) (sess : Session)
      → session_of r s ≡ some sess
      → IsRecent host pam start s sess
      → IsRefused route r s ⊎ IsEntitled start s route r sess
  judged start s route r sess h e = elim (Bool-cases sess.admin) [
    | inl a ↦
        let admin = IsAdminOf-admin start s sess e a in
        inr (record { recent = e; admits = inr admin; own = inr (inr admin) })
    | inr a ↦ elim (Bool-cases (admin_only route)) [
      | inl o ↦ let no = with_auth_not_admin host route r s sess h o a in inl (no.0, inr no.1)
      | inr o ↦ elim (Bool-cases (is_nil (named_tenant route r))) [
        | inl n ↦
            inr (record {
              recent = e;
              admits = inl o;
              own = inl (is_nil-nil (named_tenant route r) n);
            })
        | inr n ↦ elim (Bool-cases (text_eq (named_tenant route r) sess.username)) [
          | inl q ↦ inr (record {
            recent = e;
            admits = inl o;
            own = inr (inl ((text_eq_iff (named_tenant route r) sess.username).0 q));
          })
          | inr q ↦
              let no =
                with_auth_forbidden host route r s sess h a (λ k. ground (arith, n, k))
                  (λ k.
                    ground (arith, q, (text_eq_iff (named_tenant route r) sess.username).1 k)) in
              inl (no.0, inr no.1)
        ]
      ]
    ]
  ]

  with_cookie-IsRecent :
      (start s : Server) (cookie : Option Text) (sess : Session)
      → start.sessions ≡ []
      → Reach host pam start s
      → session_for cookie s.world.now s.sessions ≡ some sess
      → IsRecent host pam start s sess
  with_cookie-IsRecent start s none sess e r h = absurd (ground (arith, h))
  with_cookie-IsRecent start s (some token) sess e r h =
      found-IsRecent host pam start s token sess e r h

  -- However logins, logouts, requests, tools' calls, rounds of the reaper and changes of the machine
  -- follow on a start of the server, with no sessions: a request behind `withAuth` then is answered
  -- by 401 or 403 and changes nothing, or its cookie stands for a session that was started by a
  -- login on the way, at most eight hours ago, for an account that was a tenant and a password that
  -- PAM accepted; and unless that account was an admin's then, the route is not one for admins, and
  -- the account that the request names, if it names one, is the session's.
  pub with_auth-IsEntitled :
      (start s : Server) (route : Route) (r : Request)
      → start.sessions ≡ []
      → Reach host pam start s
      → IsRefused route r s
        ⊎ ((sess : Session) × (session_of r s ≡ some sess) × IsEntitled start s route r sess)
  with_auth-IsEntitled start s route r e run = elim (Option-cases (session_of r s)) [
    | inl h ↦ let no = with_auth_unknown host route r s h in inl (no.0, inl no.1)
    | inr (sess, h) ↦
        elim (judged start s route r sess h (with_cookie-IsRecent start s r.cookie sess e run h)) [
          | inl refused ↦ inl refused
          | inr entitled ↦ inr (sess, h, entitled)
        ]
  ]
