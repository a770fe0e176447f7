-- ===== src/System/Secret.antt =====
-- internal/system/secret.go: random passwords. `World.random` is what the machine's source of
-- randomness will yield; `rand.Int` passes over the draws that are out of range.
pub mod Drawn
use ngxborg.Base.{
  ℕ, zero, suc, List, [], ◌∷◌, Option, none, some, if◌then◌else◌, ltb, length, get_elem?,
}
use ngxborg.Text.{Text, codes}
use ngxborg.Machine.Error.{no_random, Result, ok, err}
use ngxborg.Machine.World.{World, M, pure, or_fail, ◌>>=◌}

abbrev pub password_alphabet : Text
password_alphabet = codes "ABCDEFGHJKLMNPQRSTUVWXYZabcdefghijkmnopqrstuvwxyz23456789"

abbrev pub name_alphabet : Text
name_alphabet = codes "abcdefghijkmnopqrstuvwxyz0123456789"

-- The next draw below `max`, and what is left of the stream.
unfoldable pub draw_below : ℕ → List ℕ → Option (ℕ × List ℕ)
draw_below max [] = none
draw_below max (b ∷ bs) = let rest = draw_below max bs in if ltb b max then some (b, bs) else rest

abbrev drawn : World → Option (ℕ × List ℕ) → World × Result ℕ
drawn w none = (w, err no_random)
drawn w (some (b, bs)) = (record w { random = bs }, ok b)

-- rand.Int(rand.Reader, max)
unfoldable pub rand_int : ℕ → M ℕ
unfolding draw_below
rand_int max w = drawn w (draw_below max w.random)

unfoldable pub random_string : ℕ → Text → M Text
unfolding rand_int
random_string zero alphabet = pure []
random_string (suc n) alphabet = do
  v ← rand_int (length alphabet)
  c ← or_fail no_random (get_elem? alphabet v)
  rest ← random_string n alphabet
  pure (c ∷ rest)

unfoldable pub password : ℕ → M Text
unfolding random_string
password len = random_string (if ltb len 12 then 12 else len) password_alphabet

unfoldable pub suffix : ℕ → M Text
unfolding random_string
suffix len = random_string len name_alphabet
