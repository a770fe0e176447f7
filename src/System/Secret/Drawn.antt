-- ===== src/System/Secret/Drawn.antt =====
-- Which password comes of which draws.
use ngxborg.Base.{
  ℕ, zero, suc, ◌≤◌, ◌<◌, ◌≡◌, refl, true, List, [], ◌∷◌, some, arith, if◌then◌else◌, keep_if,
  length, ltb, All, Bool-cases, ◌⊎◌, inl, inr, ap, get_elem?,
}
use ngxborg.Text.{Text, contains_char}
use ngxborg.Machine.Error.{ok}
use ngxborg.Machine.World.{World}
use ngxborg.System.Secret.{draw_below, rand_int, random_string, password, password_alphabet}

-- The draws that rand.Int takes.
abbrev pub in_range : ℕ → List ℕ → List ℕ
in_range max = keep_if λ b. ltb b max

draw_below_lem :
    (max : ℕ) (bs : List ℕ) (b : ℕ) (rest : List ℕ)
    → in_range max bs ≡ b ∷ rest
    → (left : List ℕ) × (draw_below max bs ≡ some (b, left))
      × (in_range max left ≡ rest)
      × (b < max)
unfolding draw_below
draw_below_lem max [] b rest h = absurd (ground (arith, h))
draw_below_lem max (c ∷ bs) b rest h = elim (Bool-cases (ltb c max)) [
  | inl l ↦ (bs, ground (arith, h, l), ground (arith, h, l), ground (arith, h, l))
  | inr l ↦
      let more = draw_below_lem max bs b rest (ground (arith, h, l)) in
      (more.0, ground (arith, l, more.1), more.2, more.3)
]

get_elem-some :
    (s : Text) (i : ℕ)
    → i < length s
    → (c : ℕ) × (get_elem? s i ≡ some c) × (contains_char c s ≡ true)
unfolding contains_char
get_elem-some [] i h = absurd (omega (arith, h))
get_elem-some (c ∷ s) zero h = (c, refl, ground arith)
get_elem-some (c ∷ s) (suc i) h =
    let more = get_elem-some s i (omega (arith, h)) in (more.0, more.1, ground (arith, more.2))

-- Characters of an alphabet, so many.
pub record IsSpelled (alphabet : Text) (n : ℕ) (s : Text) : Type 0 where
  pub long : length s ≡ n
  pub members : All (λ c. contains_char c alphabet ≡ true) s

List-cases {ℓ} : {A : Type ℓ} (xs : List A) → (xs ≡ []) ⊎ ((x : A) × (ys : List A) × (xs ≡ x ∷ ys))
List-cases [] = inl refl
List-cases (x ∷ ys) = inr (x, ys, refl)

drawn_step :
    (n : ℕ) (alphabet : Text) (w : World) (d : ℕ) (left : List ℕ) (c : ℕ) (s : Text)
    → draw_below (length alphabet) w.random ≡ some (d, left)
    → get_elem? alphabet d ≡ some c
    → (random_string n alphabet (record w { random = left })).1 ≡ ok s
    → (random_string (suc n) alphabet w).1 ≡ ok (c ∷ s)
unfolding random_string rand_int
drawn_step n alphabet w d left c s e g r = ground (arith, e, g, r)

random_string_lem :
    (n : ℕ) (alphabet : Text) (w : World)
    → n ≤ length (in_range (length alphabet) w.random)
    → (s : Text) × ((random_string n alphabet w).1 ≡ ok s) × IsSpelled alphabet n s
unfolding random_string
random_string_lem zero alphabet w h = ([], refl, record { long = refl; members = tt })
random_string_lem (suc n) alphabet w h = elim (List-cases (in_range (length alphabet) w.random)) [
  | inl e ↦ absurd (ground (arith, h, e))
  | inr (d, ds, e) ↦
      let drawn = draw_below_lem (length alphabet) w.random d ds e in
      let c = get_elem-some alphabet d drawn.3 in
      let left : n ≤ length (in_range (length alphabet) drawn.0) = ground (arith, h, e, drawn.2) in
      let more = random_string_lem n alphabet (record w { random = drawn.0 }) left in
      (
        c.0 ∷ more.0,
        drawn_step n alphabet w d drawn.0 c.0 more.0 drawn.1 c.1 more.1,
        record { long = ap suc more.2.long; members = (c.2, more.2.members) },
      )
]

-- For enough draws in range, whatever draws out of range stand between them, Password ends
-- with a text of as many characters as asked for, and twelve at least, all of its alphabet.
pub password_lem :
    (len : ℕ) (w : World)
    → (if ltb len 12 then 12 else len) ≤ length (in_range (length password_alphabet) w.random)
    → (s : Text) × ((password len w).1 ≡ ok s)
      × IsSpelled password_alphabet (if ltb len 12 then 12 else len) s
unfolding password
password_lem len w h = random_string_lem (if ltb len 12 then 12 else len) password_alphabet w h
