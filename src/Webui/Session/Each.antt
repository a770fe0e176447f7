-- ===== src/Webui/Session/Each.antt =====
-- What holds of every session in the store.
use ngxborg.Base.{ℕ, zero, suc, ◌≡◌, refl, subst, [], ◌∷◌, some, All, arith, inl, inr, Bool-cases}
use ngxborg.Text.{Text, text_eq}
use ngxborg.Machine.World.{World}
use ngxborg.Machine.World.Inversion.{>>=-keeps}
use ngxborg.System.Secret.{rand_int}
use ngxborg.Webui.Session.{Session, Sessions, find_session, destroy, reap, is_over, random_hex}

-- Every session in the store.
abbrev pub AllIn : (Session → Type 0) → Sessions → Type 0
AllIn P ss = All (λ item. P item.1) ss

pub AllIn-destroy :
    (P : Session → Type 0) (token : Text) (ss : Sessions) → AllIn P ss → AllIn P (destroy token ss)
unfolding destroy
AllIn-destroy P token [] h = tt
AllIn-destroy P token ((t, s) ∷ ss) h = elim (Bool-cases (text_eq t token)) [
  | inl e ↦ rw e (AllIn-destroy P token ss h.1)
  | inr e ↦ rw e (h.0, AllIn-destroy P token ss h.1)
]

pub AllIn-reap :
    (P : Session → Type 0) (now : ℕ) (ss : Sessions) → AllIn P ss → AllIn P (reap now ss)
unfolding reap
AllIn-reap P now [] h = tt
AllIn-reap P now ((t, s) ∷ ss) h = elim (Bool-cases (is_over now s)) [
  | inl e ↦ rw e (AllIn-reap P now ss h.1)
  | inr e ↦ rw e (h.0, AllIn-reap P now ss h.1)
]

pub AllIn-find_session :
    (P : Session → Type 0) (token : Text) (ss : Sessions) (sess : Session)
    → AllIn P ss
    → find_session token ss ≡ some sess
    → P sess
unfolding find_session
AllIn-find_session P token [] sess h e = absurd (ground (arith, e))
AllIn-find_session P token ((t, s) ∷ ss) sess h e = elim (Bool-cases (text_eq t token)) [
  | inl k ↦ subst P (ground (arith, e, k)) h.0
  | inr k ↦ AllIn-find_session P token ss sess h.1 (ground (arith, e, k))
]

rand_int-now : (max : ℕ) (w : World) → (rand_int max w).0.now ≡ w.now
unfolding rand_int
rand_int-now max w = ground arith

pub random_hex-now : (n : ℕ) (w : World) → (random_hex n w).0.now ≡ w.now
unfolding random_hex
random_hex-now zero w = refl
random_hex-now (suc n) w =
    >>=-keeps (λ v. v.now) (rand_int 256) _ w (rand_int-now 256 w)
      (λ b v. >>=-keeps (λ u. u.now) (random_hex n) _ v (random_hex-now n v) (λ rest u. refl))
