-- ===== src/Webui/Session.antt =====
-- internal/webui/session.go: the sessions, in memory.
pub mod Each
pub mod Laws
pub mod Abstract
use ngxborg.Base.{
  ℕ, zero, suc, ◌+◌, ◌-◌, ◌*◌, ◌/◌, ◌%◌, Bool, true, false, not, ◌||◌, List, [], ◌∷◌, ◌++◌, Option,
  none, some, if◌then◌else◌, ltb,
}
use ngxborg.Text.{Text, codes, text_eq}
use ngxborg.Machine.Error.{no_random, Result, ok, err}
use ngxborg.Machine.World.{World, M, pure, continue, ◌>>=◌}
use ngxborg.System.Secret.{rand_int}

-- seconds: 8 * time.Hour
abbrev pub session_ttl : ℕ
session_ttl = 8 * 3600

pub record Session : Type 0 where
  pub username : Text
  pub admin : Bool
  pub expires : ℕ

-- map[string]session, with at most one item for each token
abbrev pub Sessions : Type 0
Sessions = List (Text × Session)

unfoldable pub find_session : Text → Sessions → Option Session
find_session token [] = none
find_session token ((t, s) ∷ ss) = if text_eq t token then some s else find_session token ss

-- delete(sessions, token)
unfoldable pub destroy : Text → Sessions → Sessions
destroy token [] = []
destroy token ((t, s) ∷ ss) =
    let rest = destroy token ss in if text_eq t token then rest else (t, s) ∷ rest

-- sessions[token] = s
unfoldable pub set_session : Text → Session → Sessions → Sessions
set_session token s ss = (token, s) ∷ destroy token ss

-- now.After(sess.expires)
abbrev pub is_over : ℕ → Session → Bool
is_over now s = ltb s.expires now

-- One round of the loop in reap.
unfoldable pub reap : ℕ → Sessions → Sessions
reap now [] = []
reap now ((t, s) ∷ ss) = let rest = reap now ss in if is_over now s then rest else (t, s) ∷ rest

abbrev unless_over : ℕ → Option Session → Option Session
unless_over now none = none
unless_over now (some s) = if is_over now s then none else some s

unfoldable pub lookup : ℕ → Text → Sessions → Option Session
lookup now token ss = unless_over now (find_session token ss)

abbrev hex_digit : ℕ → ℕ
hex_digit n = if ltb n 10 then b'0' + n else b'a' + (n % 16) - 10

-- hex.EncodeToString of so many random bytes.
unfoldable pub random_hex : ℕ → M Text
random_hex zero = pure []
random_hex (suc n) = do
  b ← rand_int 256
  rest ← random_hex n
  pure (hex_digit (b / 16) ∷ hex_digit (b % 16) ∷ rest)

abbrev pub new_session : ℕ → Text → Bool → Session
new_session now username admin = record {
  username = username;
  admin = admin;
  expires = now + session_ttl;
}
