-- ===== src/System/Apt/Commands.antt =====
-- Which packages AptInstall asks apt for.
use ngxborg.Base.{
  ◌≡◌, refl, sym, ap, ◌∙◌, Bool, true, false, not, ◌&&◌, ◌||◌, List, [], ◌∷◌, ◌++◌, append_assoc,
  if◌then◌else◌, keep_if,
}
use ngxborg.Text.{Text, codes, text_eq, trim_space}
use ngxborg.Machine.Error.{ok}
use ngxborg.Machine.World.{World, Invocation, M, pure, ◌>>=◌}
use ngxborg.Machine.World.Inversion.{>>=-at}
use ngxborg.System.Exec.{Host, Runner, Outcome, capture, output}
use ngxborg.System.Exec.Traces.{command, run-history}
use ngxborg.System.Apt.{package_installed, installed_are, apt_install, apt_options}

abbrev pub query : Text → Invocation
query pkg = command (codes "dpkg-query") (codes "-W" ∷ codes "-f=${db:Status-Status}" ∷ pkg ∷ [])

-- The questions for the packages in their order, the last one first.
abbrev pub queries : List Text → List Invocation
queries [] = []
queries (p ∷ ps) = queries ps ++ query p ∷ []

-- What AptInstall runs for packages that are missing.
abbrev pub install_of : List Text → List Invocation
install_of [] = []
install_of (p ∷ ps) = command (codes "apt-get") ((codes "install" ∷ apt_options) ++ p ∷ ps) ∷ []

abbrev pub says_installed : Outcome → Bool
says_installed out = out.success && text_eq (trim_space (trim_space out.stdout)) (codes "installed")

abbrev pub missing_of : (Text → Bool) → List Text → List Text
missing_of installed = keep_if (λ p. not (installed p))

-- What dpkg-query promises: it answers whether the package is installed on the machine as it is,
-- and asking it installs and removes none.
pub record IsDatabase (host : Host) (installed : World → Text → Bool) : Type 0 where
  pub answered : (v : World) (p : Text) → says_installed (host.exec v (query p)).1 ≡ installed v p
  pub asked : (v : World) (p q : Text) → installed (capture host (query p) v).0 q ≡ installed v q

module _ (host : Host) (installed : World → Text → Bool)
    (database : IsDatabase host installed) where
  package_installed_lem :
      (r : Runner) (p : Text) (w : World)
      → ((package_installed host r p w).1 ≡ ok (installed w p))
        × ((package_installed host r p w).0.history ≡ query p ∷ w.history)
  unfolding package_installed output capture
  package_installed_lem r p w = (ap ok (database.answered w p), refl)

  -- Asking for a package leaves the same packages missing.
  missing_of-asked :
      (r : Runner) (p : Text) (ps : List Text) (w : World)
      → missing_of (installed (package_installed host r p w).0) ps ≡ missing_of (installed w) ps
  unfolding package_installed output
  missing_of-asked r p ps w = λ i. missing_of (λ q. database.asked w p q i) ps

  installed_are_step :
      (r : Runner) (p : Text) (ps : List Text) (w : World) (b : Bool) (rest : List Text)
      → (package_installed host r p w).1 ≡ ok b
      → (installed_are host false r ps (package_installed host r p w).0).1 ≡ ok rest
      → installed_are host false r (p ∷ ps) w ≡ (
        (installed_are host false r ps (package_installed host r p w).0).0,
        ok (if (b && false) || not (b || false) then p ∷ rest else rest),
      )
  unfolding installed_are
  installed_are_step r p ps w b rest e f =
      let last : Bool → List Text → M (List Text) =
        λ there more. pure (if (there && false) || not (there || false) then p ∷ more else more) in
      >>=-at (package_installed host r p) (λ there. installed_are host false r ps >>= last there) w
        e
      ∙ >>=-at (installed_are host false r ps) (last b) (package_installed host r p w).0 f

  kept :
      (p : Text) (b : Bool) (rest : List Text)
      → (if (b && false) || not (b || false) then p ∷ rest else rest)
        ≡ (if not b then p ∷ rest else rest)
  kept p true rest = refl
  kept p false rest = refl

  installed_are_lem :
      (r : Runner) (ps : List Text) (w : World)
      → ((installed_are host false r ps w).1 ≡ ok (missing_of (installed w) ps))
        × ((installed_are host false r ps w).0.history ≡ queries ps ++ w.history)
  unfolding installed_are
  installed_are_lem r [] w = (refl, refl)
  installed_are_lem r (p ∷ ps) w =
      let one = package_installed_lem r p w in
      let v = (package_installed host r p w).0 in
      let rest = installed_are_lem r ps v in
      let missing : (installed_are host false r ps v).1 ≡ ok (missing_of (installed w) ps) =
        rest.0 ∙ ap ok (missing_of-asked r p ps w) in
      let step =
        installed_are_step r p ps w (installed w p) (missing_of (installed w) ps) one.0 missing in
      (
        ap (λ x. x.1) step ∙ ap ok (kept p (installed w p) (missing_of (installed w) ps)),
        ap (λ x. x.0.history) step
            ∙ rest.1
            ∙ ap (λ h. queries ps ++ h) one.1
            ∙ sym (append_assoc (queries ps) (query p ∷ []) w.history),
      )

  installed_behind :
      (r : Runner) (ps missing : List Text) (w v : World)
      → r.dry_run ≡ false
      → installed_are host false r ps w ≡ (v, ok missing)
      → (apt_install host r ps w).0.history ≡ install_of missing ++ v.history
  unfolding apt_install
  installed_behind r ps [] w v d e = rw e refl
  installed_behind r ps (p ∷ missing) w v d e = rw e (run-history host r _ _ v d)

  -- Where dpkg-query answers by which packages are installed, and asking it installs and removes none,
  -- AptInstall outside a dry run asks once for every package, in order, and then runs apt-get once,
  -- with exactly the packages that are missing, in order; where none is missing it does not run
  -- apt-get.
  pub apt_install_commands :
      (r : Runner) (ps : List Text) (w : World)
      → r.dry_run ≡ false
      → (apt_install host r ps w).0.history
        ≡ install_of (missing_of (installed w) ps) ++ (queries ps ++ w.history)
  apt_install_commands r ps w d =
      let asked = installed_are_lem r ps w in
      let v = (installed_are host false r ps w).0 in
      installed_behind r ps (missing_of (installed w) ps) w v d (ap (λ x. (v, x)) asked.0)
      ∙ ap (λ h. install_of (missing_of (installed w) ps) ++ h) asked.1
