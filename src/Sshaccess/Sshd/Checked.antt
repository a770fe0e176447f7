-- ===== src/Sshaccess/Sshd/Checked.antt =====
-- What EnsureDualPort runs, and when.
use ngxborg.Base.{
  ◌≡◌, ◌⊎◌, refl, sym, ap, ◌∙◌, Bool, true, false, not, List, [], ◌∷◌, ◌++◌, All, All-append,
  append_assoc, arith, if◌then◌else◌, inl, inr, Bool-cases,
}
use ngxborg.Text.{codes, text_eq}
use ngxborg.Text.Decimal.{ℤ}
use ngxborg.Machine.Error.{ports_equal, Result, ok, err}
use ngxborg.Machine.World.{World, Invocation, M, pure, continue, ◌>>=◌, ◌>>◌}
use ngxborg.Machine.Os.{os_mkdir_all}
use ngxborg.Machine.Os.Quiet.{os_mkdir_all-quiet}
use ngxborg.System.Exec.{Host, Runner, run}
use ngxborg.System.Exec.Traces.{
  command, Extends, Emits, Extends-same, Extends-trans, >>=-Emits, >>-Emits, silent-Emits,
  guard-Emits, run-Emits, run-history,
}
use ngxborg.System.Service.{unit_exists}
use ngxborg.Sshaccess.Sshd.{
  drop_in_path, drop_in, int_eq, ensure_privilege_separation_dir, disable_socket_activation,
  ensure_dual_port,
}
use ngxborg.Sshaccess.Sshd.Emitted.{
  IsNoService, Any, atomic_write-Emits, allow_firewall_port-Emits, unit_exists-Emits,
  disable_socket_activation-Emits,
}

abbrev pub sshd_test : Invocation
sshd_test = command (codes "sshd") (codes "-t" ∷ [])

module _ (host : Host) where
  restarted : Runner → M (Unit {0})
  restarted r = do
    disable_socket_activation host r
    known ← unit_exists host r (codes "ssh.service")
    run host r (codes "systemctl")
        (codes "restart" ∷ (if known then codes "ssh.service" else codes "sshd.service") ∷ [])

  restarted-Emits : (r : Runner) → Emits Any (restarted r)
  unfolding restarted
  restarted-Emits r =
      >>-Emits (disable_socket_activation-Emits host r)
        (>>=-Emits (unit_exists-Emits host r _) (λ known. run-Emits host r _ _ tt))

  -- Between `w` and `v` sshd accepted its configuration, and no command of systemctl ran before that.
  pub record IsTested (w v : World) : Type 0 where
    pub earlier : List Invocation
    pub later : List Invocation
    pub at : World
    pub ran : v.history ≡ later ++ sshd_test ∷ (earlier ++ w.history)
    pub no_service : All IsNoService earlier
    pub reached : at.history ≡ earlier ++ w.history
    pub accepted : (host.exec at sshd_test).1.success ≡ true

  abbrev IsCareful : World → World → Type 0
  IsCareful w v = Extends IsNoService w v ⊎ IsTested w v

  then-IsCareful : (u v w : World) → Extends IsNoService u v → IsCareful v w → IsCareful u w
  then-IsCareful u v w a (inl b) = inl (Extends-trans IsNoService u v w a b)
  then-IsCareful u v w a (inr b) = inr (record {
    earlier = b.earlier ++ a.ran;
    later = b.later;
    at = b.at;
    ran =
        b.ran
        ∙ ap (λ h. b.later ++ sshd_test ∷ h)
            (ap (λ h. b.earlier ++ h) a.extended ∙ sym (append_assoc b.earlier a.ran u.history));
    no_service = All-append IsNoService b.earlier a.ran b.no_service a.each;
    reached =
        b.reached
        ∙ ap (λ h. b.earlier ++ h) a.extended
        ∙ sym (append_assoc b.earlier a.ran u.history);
    accepted = b.accepted;
  })

  continue-IsCareful {ℓ} :
      {A : Type ℓ} (m : Result A) (f : A → M (Unit {0})) (u w : World)
      → Extends IsNoService u w
      → ((a : A) → IsCareful w (f a w).0)
      → IsCareful u (continue m f w).0
  continue-IsCareful (ok a) f u w h k = then-IsCareful u w (f a w).0 h (k a)
  continue-IsCareful (err e) f u w h k = inl h

  tested : Runner → M (Unit {0})
  tested r = run host r (codes "sshd") (codes "-t" ∷ []) >> restarted r

  after_test : Runner → World → World
  after_test r w = (run host r (codes "sshd") (codes "-t" ∷ []) w).0

  tested-refused :
      (r : Runner) (w : World)
      → r.dry_run ≡ false
      → (host.exec w sshd_test).1.success ≡ false
      → (tested r w).0 ≡ after_test r w
  unfolding tested run after_test
  tested-refused r w d a = rw (d, a) refl

  tested-accepted :
      (r : Runner) (w : World)
      → r.dry_run ≡ false
      → (host.exec w sshd_test).1.success ≡ true
      → (tested r w).0 ≡ (restarted r (after_test r w)).0
  unfolding tested run after_test
  tested-accepted r w d a = rw (d, a) refl

  tested-IsCareful : (r : Runner) (w : World) → r.dry_run ≡ false → IsCareful w (tested r w).0
  unfolding after_test text_eq
  tested-IsCareful r w d =
      let ran = run-history host r (codes "sshd") (codes "-t" ∷ []) w d in
      elim (Bool-cases (host.exec w sshd_test).1.success) [
        | inr a ↦ inl (record {
          ran = sshd_test ∷ [];
          extended = ap (λ v. v.history) (tested-refused r w d a) ∙ ran;
          each = (refl, tt);
        })
        | inl a ↦
            let more = (restarted-Emits r).extends (after_test r w) in
            inr (record {
              earlier = [];
              later = more.ran;
              at = w;
              ran =
                  ap (λ v. v.history) (tested-accepted r w d a)
                  ∙ more.extended
                  ∙ ap (λ h. more.ran ++ h) ran;
              no_service = tt;
              reached = refl;
              accepted = a;
            })
      ]

  -- A step that runs no command of systemctl before sshd has accepted its configuration.
  record Careful {ℓ} {A : Type ℓ} (m : M A) : Type ℓ where
    careful : (w : World) → IsCareful w (m w).0

  >>-Careful {ℓ} :
      {A : Type ℓ} {m : M A} {k : M (Unit {0})} → Emits IsNoService m → Careful k → Careful (m >> k)
  >>-Careful {m = m} {k = k} h n = record {
    careful =
        λ w. continue-IsCareful (m w).1 (λ _. k) w (m w).0 (h.extends w) (λ a. n.careful (m w).0);
  }

  else-Careful {ℓ} :
      {A : Type ℓ} (b : Bool) (m : M A) {k : M A}
      → b ≡ false
      → Careful k
      → Careful (if b then m else k)
  else-Careful true m e h = absurd (ground (arith, e))
  else-Careful false m e h = h

  tested-Careful : (r : Runner) → r.dry_run ≡ false → Careful (tested r)
  tested-Careful r d = record { careful = λ w. tested-IsCareful r w d }

  live-Careful : (r : Runner) (p q : ℤ) → r.dry_run ≡ false → Careful (ensure_dual_port host r p q)
  unfolding ensure_dual_port tested restarted ensure_privilege_separation_dir
  live-Careful r p q d = >>-Careful (guard-Emits (not (int_eq p q)) ports_equal) (
      else-Careful r.dry_run (pure tt) d (
        >>-Careful (silent-Emits (os_mkdir_all (codes "/run/sshd") 0o755) (os_mkdir_all-quiet _ _))
          (>>-Careful (atomic_write-Emits drop_in_path (drop_in p q) 0o644)
            (>>-Careful (allow_firewall_port-Emits host r q) (tested-Careful r d)))))

  pub dry_same :
      (r : Runner) (p q : ℤ) (w : World) → r.dry_run ≡ true → (ensure_dual_port host r p q w).0 ≡ w
  unfolding ensure_dual_port
  dry_same r p q w d = ground arith

  -- EnsureDualPort, whatever the ports are and however it ends, runs no command of systemctl, or
  -- there is a point in its run, after commands that are not systemctl's, at which `sshd -t` ran and
  -- accepted the configuration, and all commands of systemctl ran after it.
  pub ensure_dual_port-IsTested :
      (r : Runner) (p q : ℤ) (w : World)
      → Extends IsNoService w (ensure_dual_port host r p q w).0
        ⊎ IsTested w (ensure_dual_port host r p q w).0
  ensure_dual_port-IsTested r p q w = elim (Bool-cases r.dry_run) [
    | inl d ↦ inl (Extends-same IsNoService w _ (ap (λ v. v.history) (dry_same r p q w d)))
    | inr d ↦ (live-Careful r p q d).careful w
  ]
