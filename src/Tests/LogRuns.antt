-- ===== src/Tests/LogRuns.antt =====
-- Messages, sessions over a day, a password drawn.
use ngxborg.Base.{ℕ, ◌≡◌, true, false, List, [], ◌∷◌, arith}
use ngxborg.Text.{Text, codes}
use ngxborg.Machine.Error.{ok}
use ngxborg.Machine.World.{World}
use ngxborg.System.Secret.{password, password_alphabet}
use ngxborg.System.Secret.Drawn.{IsSpelled, password_lem}
use ngxborg.Logx.{level_error}
use ngxborg.Logx.Calls.{Call, section_call, change_call, warn_call, level_call}
use ngxborg.Webui.Session.{lookup, new_session}
use ngxborg.Webui.Session.Laws.{Event, created, destroyed, reaped, after_all}
use ngxborg.Webui.Session.Abstract.{seen_after_all, after_all_refines}
use ngxborg.Tests.Data.{machine}

abbrev calls : List Call
calls =
    section_call (codes "Setup")
    ∷ warn_call (codes "no unit")
    ∷ level_call level_error
    ∷ warn_call (codes "low space")
    ∷ change_call (codes "done")
    ∷ []

abbrev day : List Event
day =
    created (codes "t1") (new_session 100 (codes "alice") false)
    ∷ created (codes "t2") (new_session 100 (codes "bob") true)
    ∷ reaped 150
    ∷ destroyed (codes "t1")
    ∷ []

after_all_refines_example :
    (λ x. lookup 200 x (after_all day [])) ≡ seen_after_all 200 day (λ x. lookup 200 x [])
after_all_refines_example = after_all_refines 200 day [] tt (tt, (tt, (omega arith, (tt, tt))))

abbrev draws : List ℕ
draws = 200 ∷ 0 ∷ 1 ∷ 2 ∷ 3 ∷ 4 ∷ 5 ∷ 255 ∷ 6 ∷ 7 ∷ 8 ∷ 9 ∷ 10 ∷ 11 ∷ []

abbrev drawing : World
drawing = record machine { random = draws }

password_lem_example :
    (s : Text) × ((password 8 drawing).1 ≡ ok s) × IsSpelled password_alphabet 12 s
password_lem_example = password_lem 8 drawing (omega arith)
