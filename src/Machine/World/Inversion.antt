-- ===== src/Machine/World/Inversion.antt =====
-- A chain of steps that succeeds is a chain of successes.
use ngxborg.Base.{◌≡◌, refl, sym, ap, ◌∙◌, List, [], ◌∷◌}
use ngxborg.Machine.Error.{Result, ok, err}
use ngxborg.Machine.World.{World, M, continue, ◌>>=◌, ◌>>◌}

continue-ok {ℓ κ} :
    {A : Type ℓ} {B : Type κ} (r : Result A) (f : A → M B) (w : World) {b : B}
    → (continue r f w).1 ≡ ok b
    → (a : A) × (r ≡ ok a) × (continue r f w ≡ f a w)
continue-ok (ok a) f w h = (a, refl, refl)
continue-ok (err e) f w h = absurd (cc)

pub >>=-ok {ℓ κ} :
    {A : Type ℓ} {B : Type κ} (m : M A) (f : A → M B) (w : World) {b : B}
    → ((m >>= f) w).1 ≡ ok b
    → (a : A) × ((m w).1 ≡ ok a) × ((m >>= f) w ≡ f a (m w).0)
>>=-ok m f w h = continue-ok (m w).1 f (m w).0 h

abbrev pub in_turn : List (M (Unit {0})) → M (Unit {0}) → M (Unit {0})
in_turn [] last = last
in_turn (m ∷ ms) last = m >> in_turn ms last

-- If all steps succeed, the last one is run on some state and ends as they do.
pub in_turn-last :
    (ms : List (M (Unit {0}))) (last : M (Unit {0})) (w : World)
    → (in_turn ms last w).1 ≡ ok tt
    → (v : World) × (in_turn ms last w ≡ last v)
in_turn-last [] last w h = (w, refl)
in_turn-last (m ∷ ms) last w h =
    let one = >>=-ok m (λ _. in_turn ms last) w h in
    let rest = in_turn-last ms last (m w).0 (ap (λ r. r.1) (sym one.2) ∙ h) in
    (rest.0, one.2 ∙ rest.1)

continue-keeps {ℓ κ μ} :
    {A : Type ℓ} {B : Type κ} {C : Type μ} (g : World → C) (r : Result A) (f : A → M B) (w : World)
    → ((a : A) → g (f a w).0 ≡ g w)
    → g (continue r f w).0 ≡ g w
continue-keeps g (ok a) f w h = h a
continue-keeps g (err e) f w h = refl

-- What both steps leave as it is, the two in turn do.
pub >>=-keeps {ℓ κ μ} :
    {A : Type ℓ} {B : Type κ} {C : Type μ} (g : World → C) (m : M A) (f : A → M B) (w : World)
    → g (m w).0 ≡ g w
    → ((a : A) (v : World) → g (f a v).0 ≡ g v)
    → g ((m >>= f) w).0 ≡ g w
>>=-keeps g m f w h k = continue-keeps g (m w).1 f (m w).0 (λ a. k a (m w).0) ∙ h

-- A step that succeeds goes on with its value.
pub >>=-at {ℓ κ} :
    {A : Type ℓ} {B : Type κ} (m : M A) (f : A → M B) (w : World) {a : A}
    → (m w).1 ≡ ok a
    → (m >>= f) w ≡ f a (m w).0
>>=-at m f w e = ap (λ r. continue r f (m w).0) e
