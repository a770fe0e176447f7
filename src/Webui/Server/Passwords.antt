-- ===== src/Webui/Server/Passwords.antt =====
-- Whose password a request can set.
use ngxborg.Base.{
  ℕ, zero, suc, ◌≡◌, ◌⊎◌, refl, sym, ap, subst, ◌∙◌, Bool, true, false, not, ◌&&◌, ◌||◌, [], ◌∷◌,
  ◌++◌, Option, none, some, arith, Bool-cases, inl, inr, is_nil, if◌then◌else◌, length, get_elem?,
}
use ngxborg.Text.{Text, codes, text_eq, contains_char}
use ngxborg.Text.Search.{text_eq_iff}
use ngxborg.Machine.Error.{Result, ok, err, no_random}
use ngxborg.Machine.World.{World, or_fail}
use ngxborg.Machine.World.Inversion.{>>=-keeps}
use ngxborg.System.Exec.{Host, capture, run_stdin, runner}
use ngxborg.System.Secret.{rand_int, random_string, password}
use ngxborg.Posix.Groups.{exists}
use ngxborg.Posix.Account
use ngxborg.Posix.Account.Commands.{command}
use ngxborg.Webui.Http.{Form, Request, Response}
use ngxborg.Webui.Session.{Session}
use ngxborg.Webui.Handlers.{handle_passwd, generated}
use ngxborg.Webui.Server.{Server, passwd, admin_only, handler, with_auth}
use ngxborg.Webui.Server.Access.{session_of}
use ngxborg.Webui.Server.Isolated.{with_auth-world}

-- A password that stands in one line of what chpasswd reads, and in it ends the name.
abbrev pub IsPlain : Text → Type 0
IsPlain p = (contains_char b'\n' p || contains_char b':' p) ≡ false

-- Between `w` and `v` no command ran, or one: chpasswd with a password for the account.
abbrev pub IsOwn : Text → World → World → Type 0
IsOwn name w v =
    (v.history ≡ w.history)
    ⊎ ((p : Text) × IsPlain p
        × (v.history
            ≡ command (codes "chpasswd") [] (name ++ (b':' ∷ (p ++ b'\n' ∷ []))) ∷ w.history))

rand_int-history : (max : ℕ) (w : World) → (rand_int max w).0.history ≡ w.history
unfolding rand_int
rand_int-history max w = ground arith

or_fail-history :
    {A : Type 0} (o : Option A) (w : World) → (or_fail no_random o w).0.history ≡ w.history
or_fail-history none w = refl
or_fail-history (some a) w = refl

random_string-history :
    (n : ℕ) (alphabet : Text) (w : World) → (random_string n alphabet w).0.history ≡ w.history
unfolding random_string
random_string-history zero alphabet w = refl
random_string-history (suc n) alphabet w =
    >>=-keeps (λ v. v.history) (rand_int (length alphabet)) _ w
      (rand_int-history (length alphabet) w)
      (λ b v.
        >>=-keeps (λ u. u.history) (or_fail no_random (get_elem? alphabet b)) _ v
          (or_fail-history (get_elem? alphabet b) v)
          (λ c u.
            >>=-keeps (λ x. x.history) (random_string n alphabet) _ u
              (random_string-history n alphabet u) (λ rest x. refl)))

password-history : (n : ℕ) (w : World) → (password n w).0.history ≡ w.history
unfolding password
password-history n w = random_string-history _ _ w

module _ (host : Host) where
  set_password-IsOwn :
      (name p : Text) (w : World) → IsOwn name w (Account.set_password host runner name p w).0
  unfolding Account.set_password run_stdin capture
  set_password-IsOwn name p w = elim (Bool-cases (exists w name)) [
    | inr e ↦ rw e (inl refl)
    | inl e ↦ rw e (elim (Bool-cases (contains_char b'\n' p || contains_char b':' p)) [
      | inl c ↦ rw c (inl refl)
      | inr c ↦ rw c (inr (p, c, refl))
    ])
  ]

  IsOwn-since :
      (name : Text) (w v u : World) → v.history ≡ w.history → IsOwn name v u → IsOwn name w u
  IsOwn-since name w v u e (inl h) = inl (h ∙ e)
  IsOwn-since name w v u e (inr (p, plain, h)) = inr (
    p,
    plain,
    h ∙ ap (λ x. command (codes "chpasswd") [] (name ++ (b':' ∷ (p ++ b'\n' ∷ []))) ∷ x) e,
  )

  generated-IsOwn :
      (name : Text) (w v : World) (r : Result Text)
      → v.history ≡ w.history
      → IsOwn name w (generated host name (v, r)).0
  generated-IsOwn name w v (ok p) e =
      IsOwn-since name w v (Account.set_password host runner name p v).0 e
        (set_password-IsOwn name p v)
  generated-IsOwn name w v (err x) e = inl e

  -- A password that is given, or else generated, for the session's account.
  new-IsOwn :
      (name new : Text) (w : World) (x : World × Response)
      → x.0 ≡ (Account.set_password host runner name new w).0
      → IsOwn name w (if is_nil new then generated host name (password 20 w) else x).0
  new-IsOwn name [] w x e =
      generated-IsOwn name w (password 20 w).0 (password 20 w).1 (password-history 20 w)
  new-IsOwn name (c ∷ new) w x e = rw e (set_password-IsOwn name (c ∷ new) w)

  -- The same behind the test of the account named.
  tested-IsOwn :
      (name target new : Text) (admin : Bool) (w : World) (refusal x : World × Response)
      → admin ≡ false
      → refusal.0 ≡ w
      → x.0 ≡ (Account.set_password host runner target new w).0
      → IsOwn name w
          (if not admin && not (text_eq target name)
            then refusal
            else if is_nil new
            then generated host target (password 20 w)
            else x).0
  tested-IsOwn name target new true w refusal x a n e = absurd (ground (arith, a))
  tested-IsOwn name target new false w refusal x a n e = elim (Bool-cases (text_eq target name)) [
    | inl t ↦ rw t (
        subst (λ y. IsOwn y w (if is_nil new then generated host target (password 20 w) else x).0)
          ((text_eq_iff target name).0 t) (new-IsOwn target new w x e))
    | inr t ↦ rw (t, n) (inl refl)
  ]

  body-IsOwn :
      (sess : Session) (r : Request) (body : Option Form) (w : World)
      → r.body ≡ body
      → sess.admin ≡ false
      → IsOwn sess.username w (handle_passwd host sess r w).0
  unfolding handle_passwd
  body-IsOwn sess r none w e a = rw e (inl refl)
  body-IsOwn sess r (some req) w e a = rw e (
      tested-IsOwn sess.username (if is_nil req.username then sess.username else req.username)
        req.password sess.admin w _ _ a refl refl)

  -- A request of a session that is not an admin's at the route for passwords, whatever it asks for
  -- and however it ends, runs no command, or exactly one: chpasswd without arguments, whose standard
  -- input is one line, with the session's own account and a password without line feed and colon.
  pub with_auth-IsOwn_password :
      (r : Request) (s : Server) (sess : Session)
      → session_of r s ≡ some sess
      → sess.admin ≡ false
      → IsOwn sess.username s.world (with_auth host passwd r s).0.world
  unfolding handler
  with_auth-IsOwn_password r s sess h a =
      subst (IsOwn sess.username s.world)
        (sym (with_auth-world host passwd r s sess h (unfold admin_only in refl)))
        (body-IsOwn sess r r.body s.world refl a)
