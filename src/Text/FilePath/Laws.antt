-- ===== src/Text/FilePath/Laws.antt =====
-- How a path is cleaned, component by component.
use ngxborg.Base.{◌≡◌, ◌≢◌, refl, Bool, false, List, [], ◌∷◌, ◌++◌, arith}
use ngxborg.Text.{Text, codes, text_eq, contains_char}
use ngxborg.Text.Search.{text_eq_ne}
use ngxborg.Text.FilePath.{pops, clean_step, clean_from}

-- A component that cleaning keeps, whatever stands before it.
pub record IsSegment (c : Text) : Type 0 where
  pub no_slash : contains_char b'/' c ≡ false
  pub named : c ≢ []
  pub not_dot : c ≢ codes "."
  pub not_dots : c ≢ codes ".."

pub clean_step-IsSegment :
    (rooted : Bool) (done : List Text) (c : Text)
    → IsSegment c
    → clean_step rooted done c ≡ c ∷ done
unfolding clean_step
clean_step-IsSegment rooted done [] h = absurd (h.named refl)
clean_step-IsSegment rooted done (d ∷ c) h =
    ground
      (arith, text_eq_ne (d ∷ c) (codes ".") h.not_dot, text_eq_ne (d ∷ c) (codes "..") h.not_dots)

-- ".." takes the component before it off.
pub clean_step-dots :
    (rooted : Bool) (done : List Text) (c : Text)
    → IsSegment c
    → clean_step rooted (c ∷ done) (codes "..") ≡ done
unfolding clean_step pops text_eq
clean_step-dots rooted done c h = rw (text_eq_ne c (codes "..") h.not_dots)

pub clean_from-append :
    (rooted : Bool) (done xs ys : List Text)
    → clean_from rooted done (xs ++ ys) ≡ clean_from rooted (clean_from rooted done xs) ys
unfolding clean_from
clean_from-append rooted done [] ys = refl
clean_from-append rooted done (x ∷ xs) ys =
    clean_from-append rooted (clean_step rooted done x) xs ys
