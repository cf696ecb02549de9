-- ===== src/Tests/Session.antt =====
-- Sessions at concrete inputs.
use gopbx.Prelude.{◌≤◌, ◌≡◌, refl, true, List, [], ◌∷◌, none, codes, if◌then◌else◌}
use gopbx.Session.State.{websocket, kill, disconnect, CloseInfo, Session, new_session, closed}
use gopbx.Session.Lifecycle.{
  Op, activates, begins, binds, requests, finalizes, fails, run, step, run_once, FirstWins,
  step-FirstWins, new_session-Inv,
}

abbrev killed : CloseInfo
killed = record { cause = kill; reason = codes "killed"; initiator = codes "system"; err = [] }

abbrev gone : CloseInfo
gone = record { cause = disconnect; reason = []; initiator = []; err = [] }

abbrev fresh : Session
fresh = new_session (codes "s1") websocket none 0

abbrev life : List Op
life = begins none ∷ binds true ∷ requests killed ∷ fails (codes "x") ∷ finalizes gone 9 ∷ []

run_once_example :
    let (s, calls, signals) = run fresh life in
    (calls ≤ 1)
    × (signals ≤ 1)
    × (calls ≡ (if s.close_fn_called then 1 else 0))
    × (signals ≡ (if s.done then 0 else 1))
run_once_example = run_once (codes "s1") websocket none 0 life

step-FirstWins_example : FirstWins fresh.close_info (step fresh (requests killed)).0.close_info
step-FirstWins_example =
    step-FirstWins fresh (requests killed) (new_session-Inv (codes "s1") websocket none 0)

-- The close function ran once, the channel was closed once, and the
-- first cause stands.
life_ends :
    ((run fresh life).1 ≡ 1)
    × ((run fresh life).2 ≡ 1)
    × ((run fresh life).0.close_info ≡ record killed { err = codes "x" })
unfolding run step new_session gopbx.Session.State.merge_close_info
life_ends = (refl, refl, refl)

-- A session that is killed and then cleaned up.
abbrev short_life : List Op
short_life = activates ∷ requests killed ∷ finalizes gone 9 ∷ []
