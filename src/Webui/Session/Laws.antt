-- ===== src/Webui/Session/Laws.antt =====
-- What the session store answers after each of its operations.
use ngxborg.Base.{
  ℕ, ◌+◌, ◌≤◌, ◌≡◌, refl, Bool, List, [], ◌∷◌, none, some, arith, if◌then◌else◌, ltb,
}
use ngxborg.Text.{Text, text_eq}
use ngxborg.Text.Search.{text_eq_iff}
use ngxborg.Webui.Session.{
  Session, Sessions, session_ttl, find_session, destroy, set_session, reap, lookup, new_session,
}

pub find_session-destroy :
    (token other : Text) (ss : Sessions)
    → find_session other (destroy token ss)
      ≡ (if text_eq token other then none else find_session other ss)
unfolding find_session destroy
find_session-destroy token other [] = ground arith
find_session-destroy token other ((t, s) ∷ ss) = ground (
  arith,
  find_session-destroy token other ss,
  text_eq_iff t token,
  text_eq_iff t other,
  text_eq_iff token other,
)

-- After a login with a token the store answers for it with the new session until it is over, not
-- after that, and for every other token as before.
pub lookup-set_session :
    (now later : ℕ) (token other username : Text) (admin : Bool) (ss : Sessions)
    → lookup later other (set_session token (new_session now username admin) ss) ≡ (
        if text_eq token other
        then if ltb (now + session_ttl) later then none else some (new_session now username admin)
        else lookup later other ss)
unfolding lookup set_session find_session
lookup-set_session now later token other username admin ss =
    ground (arith, find_session-destroy token other ss)

-- After a logout the store has no session for the token, and answers for every other as before.
pub lookup-destroy :
    (now : ℕ) (token other : Text) (ss : Sessions)
    → lookup now other (destroy token ss)
      ≡ (if text_eq token other then none else lookup now other ss)
unfolding lookup
lookup-destroy now token other ss = ground (arith, find_session-destroy token other ss)

-- No token has two items.
abbrev pub IsMap : Sessions → Type 0
IsMap [] = Unit {0}
IsMap ((t, s) ∷ ss) = (find_session t ss ≡ none) × IsMap ss

find_session-reap-none :
    (now : ℕ) (token : Text) (ss : Sessions)
    → find_session token ss ≡ none
    → find_session token (reap now ss) ≡ none
unfolding find_session reap
find_session-reap-none now token [] h = refl
find_session-reap-none now token ((t, s) ∷ ss) h =
    ground (arith, find_session-reap-none now token ss)

-- The reaper is invisible: for every token, at its own time and later, the store answers as if it
-- had not run.
pub lookup-reap :
    (now later : ℕ) (token : Text) (ss : Sessions)
    → IsMap ss
    → now ≤ later
    → lookup later token (reap now ss) ≡ lookup later token ss
unfolding lookup find_session reap
lookup-reap now later token [] m h = refl
lookup-reap now later token ((t, s) ∷ ss) m h = ground (
  arith,
  lookup-reap now later token ss m.1 h,
  find_session-reap-none now token ss,
  text_eq_iff t token,
)

pub destroy-IsMap : (token : Text) (ss : Sessions) → IsMap ss → IsMap (destroy token ss)
unfolding destroy
destroy-IsMap token [] m = tt
destroy-IsMap token ((t, s) ∷ ss) m =
    ground (arith, destroy-IsMap token ss m.1, find_session-destroy token t ss)

pub set_session-IsMap :
    (token : Text) (s : Session) (ss : Sessions) → IsMap ss → IsMap (set_session token s ss)
unfolding set_session
set_session-IsMap token s ss m = (
  ground (arith, find_session-destroy token token ss, text_eq_iff token token),
  destroy-IsMap token ss m,
)

pub reap-IsMap : (now : ℕ) (ss : Sessions) → IsMap ss → IsMap (reap now ss)
unfolding reap
reap-IsMap now [] m = tt
reap-IsMap now ((t, s) ∷ ss) m =
    ground (arith, reap-IsMap now ss m.1, find_session-reap-none now t ss m.0)

-- What may happen to the store.
pub data Event : Type 0 where
  created : Text → Session → Event
  destroyed : Text → Event
  reaped : ℕ → Event

unfoldable pub after : Event → Sessions → Sessions
after (created token s) ss = set_session token s ss
after (destroyed token) ss = destroy token ss
after (reaped now) ss = reap now ss

unfoldable pub after_all : List Event → Sessions → Sessions
after_all [] ss = ss
after_all (e ∷ es) ss = after_all es (after e ss)

-- Whatever sequence of logins, logouts and reaper rounds begins at a store in which no token has
-- two items ends in such a store.
pub after_all-IsMap : (es : List Event) (ss : Sessions) → IsMap ss → IsMap (after_all es ss)
unfolding after_all after
after_all-IsMap [] ss m = m
after_all-IsMap (created token s ∷ es) ss m = after_all-IsMap es _ (set_session-IsMap token s ss m)
after_all-IsMap (destroyed token ∷ es) ss m = after_all-IsMap es _ (destroy-IsMap token ss m)
after_all-IsMap (reaped now ∷ es) ss m = after_all-IsMap es _ (reap-IsMap now ss m)
