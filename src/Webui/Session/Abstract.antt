-- ===== src/Webui/Session/Abstract.antt =====
-- The session store as a function from tokens to sessions.
use ngxborg.Base.{
  ℕ, ◌≤◌, ◌≡◌, refl, ap, ◌∙◌, List, [], ◌∷◌, Option, none, some, arith, if◌then◌else◌, ltb,
}
use ngxborg.Text.{Text, text_eq}
use ngxborg.Webui.Session.{Session, Sessions, find_session, set_session, lookup}
use ngxborg.Webui.Session.Laws.{
  Event, created, destroyed, reaped, after, after_all, IsMap, find_session-destroy, lookup-destroy,
  lookup-reap, destroy-IsMap, set_session-IsMap, reap-IsMap,
}

-- What a client sees of the store at one time.
abbrev pub View : Type 0
View = Text → Option Session

-- A session is seen until it is over.
abbrev pub seen : ℕ → Session → Option Session
seen now s = if ltb s.expires now then none else some s

-- The same events on the view: the reaper does nothing.
unfoldable pub seen_after : ℕ → Event → View → View
seen_after now (created token s) view x = if text_eq token x then seen now s else view x
seen_after now (destroyed token) view x = if text_eq token x then none else view x
seen_after now (reaped _) view x = view x

unfoldable pub seen_after_all : ℕ → List Event → View → View
seen_after_all now [] view = view
seen_after_all now (e ∷ es) view = seen_after_all now es (seen_after now e view)

-- The reaper runs at its own time, which is not after `now`.
abbrev IsBy : ℕ → Event → Type 0
IsBy now (created _ _) = Unit {0}
IsBy now (destroyed _) = Unit {0}
IsBy now (reaped at) = at ≤ now

abbrev pub IsPast : ℕ → List Event → Type 0
IsPast now [] = Unit {0}
IsPast now (e ∷ es) = IsBy now e × IsPast now es

lookup-set :
    (now : ℕ) (token other : Text) (s : Session) (ss : Sessions)
    → lookup now other (set_session token s ss)
      ≡ (if text_eq token other then seen now s else lookup now other ss)
unfolding lookup set_session find_session
lookup-set now token other s ss = ground (arith, find_session-destroy token other ss)

after-IsMap : (e : Event) (ss : Sessions) → IsMap ss → IsMap (after e ss)
unfolding after
after-IsMap (created token s) ss m = set_session-IsMap token s ss m
after-IsMap (destroyed token) ss m = destroy-IsMap token ss m
after-IsMap (reaped now) ss m = reap-IsMap now ss m

lookup-after :
    (now : ℕ) (e : Event) (ss : Sessions)
    → IsMap ss
    → IsBy now e
    → (λ x. lookup now x (after e ss)) ≡ seen_after now e (λ x. lookup now x ss)
unfolding after seen_after
lookup-after now (created token s) ss m h = λ i x. lookup-set now token x s ss i
lookup-after now (destroyed token) ss m h = λ i x. lookup-destroy now token x ss i
lookup-after now (reaped at) ss m h = λ i x. lookup-reap at now x ss m h i

-- The store refines the view: after any sequence of logins, logouts and reaper rounds, on a store
-- in which no token has two items, what it answers at a time that is not before any reaper round
-- is what the same events make of a function from tokens to sessions, on which the reaper does
-- nothing at all.
pub after_all_refines :
    (now : ℕ) (es : List Event) (ss : Sessions)
    → IsMap ss
    → IsPast now es
    → (λ x. lookup now x (after_all es ss)) ≡ seen_after_all now es (λ x. lookup now x ss)
unfolding after_all seen_after_all
after_all_refines now [] ss m h = refl
after_all_refines now (e ∷ es) ss m h =
    after_all_refines now es (after e ss) (after-IsMap e ss m) h.1
    ∙ ap (seen_after_all now es) (lookup-after now e ss m h.0)
