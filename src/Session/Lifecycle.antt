-- ===== src/Session/Lifecycle.antt =====
-- session.go: what holds of a session after any sequence of its methods.
use gopbx.Prelude.{
  ℕ, ◌+◌, ◌≤◌, ◌≡◌, refl, ◌⊎◌, Bool, true, false, not, List, [], ◌∷◌, Option, none, some,
  if◌then◌else◌, Text, is_empty, arith, or_else, if_intro,
}
use gopbx.Protocol.Command.{CommandName, CallOption}
use gopbx.Session.State.{
  CallType, State, closing, closed, failed, error, CloseInfo, no_close_info, Session, new_session,
  is_terminal, is_closed, is_unset, is_error, append_command, set_dump_enabled, begin_handshake,
  mark_active, record_answer, request_close, fail, bind_close_func, finalize, bind_tts_sink,
  merge_close_info,
}
use gopbx.Session.Track.{start_track, clear_track}

-- The methods that change a session, with their arguments and the time where they read it.
pub data Op : Type 0 where
  appends : CommandName → Op
  sets_dump : Bool → Op
  begins : Option CallOption → Op
  activates : Op
  answers : Text → ℕ → Op
  requests : CloseInfo → Op
  fails : Text → Op
  binds : Bool → Op
  finalizes : CloseInfo → ℕ → Op
  sinks : Bool → Op
  starts_track : Text → Option Text → Op
  clears_track : Op

abbrev count : Bool → ℕ
count true = 1
count false = 0

-- The new state, how often the close function is called, and how often the channel is closed.
unfoldable pub step : Session → Op → Session × ℕ × ℕ
unfolding append_command set_dump_enabled begin_handshake mark_active record_answer request_close
    fail bind_close_func finalize bind_tts_sink start_track clear_track
step s (appends name) = (append_command s name, 0, 0)
step s (sets_dump enabled) = (set_dump_enabled s enabled, 0, 0)
step s (begins option) = (begin_handshake s option, 0, 0)
step s activates = (mark_active s, 0, 0)
step s (answers sdp now) = (record_answer s sdp now, 0, 0)
step s (requests info) = let (t, called) = request_close s info in (t, count called, 0)
step s (fails err) = let (t, called) = fail s err in (t, count called, 0)
step s (binds present) = let (t, called) = bind_close_func s present in (t, count called, 0)
step s (finalizes info now) = let (t, _, signalled) = finalize s info now in (t, 0, count signalled)
step s (sinks present) = (bind_tts_sink s present, 0, 0)
step s (starts_track prefix play_id) = ((start_track s prefix play_id).0, 0, 0)
step s clears_track = ((clear_track s).0, 0, 0)

unfoldable pub run : Session → List Op → Session × ℕ × ℕ
run s [] = (s, 0, 0)
run s (op ∷ ops) =
    let (t, calls, signals) = step s op in
    let (u, later_calls, later_signals) = run t ops in
    (u, calls + later_calls, signals + later_signals)

pub record Inv (s : Session) : Type 0 where
  pub requested : s.close_requested ≡ is_terminal s.state
  pub cause_set : s.close_requested ≡ true → is_unset s.close_info.cause ≡ false
  pub blank : s.close_requested ≡ false → s.close_info ≡ no_close_info
  pub failed_cause : s.state ≡ failed → s.close_info.cause ≡ error
  pub closing_cause : s.state ≡ closing → is_error s.close_info.cause ≡ false
  pub called_late : s.close_fn_called ≡ true → s.close_requested ≡ true
  pub not_lost :
      s.close_requested ≡ true → s.close_fn ≡ true → (s.close_fn_called ≡ true) ⊎ (s.state ≡ closed)
  pub channel : s.done ≡ not (is_closed s.state)

-- A new session meets the invariant.
pub new_session-Inv :
    (id : Text) (typ : CallType) (option : Option CallOption) (now : ℕ)
    → Inv (new_session id typ option now)
unfolding new_session
new_session-Inv id typ option now = ground arith

-- Every method keeps the invariant.
pub step-Inv : (s : Session) (op : Op) → Inv s → Inv (step s op).0
unfolding step
step-Inv s (requests info) h = ground arith
step-Inv s (finalizes info now) h = ground arith
step-Inv s op h = ground arith

pub run-Inv : (s : Session) (ops : List Op) → Inv s → Inv (run s ops).0
unfolding run
run-Inv s [] h = h
run-Inv s (op ∷ ops) h = run-Inv (step s op).0 ops (step-Inv s op h)

-- After any methods a new session meets the invariant: it is terminal exactly when its close was
-- requested, and then has a cause; it is failed only for the cause `error`, and closing only for
-- another; a bound close function was called, unless the session was finalized first; and the
-- channel is open exactly until the session is closed.
run-new_session-Inv :
    (id : Text) (typ : CallType) (option : Option CallOption) (now : ℕ) (ops : List Op)
    → Inv (run (new_session id typ option now) ops).0
run-new_session-Inv id typ option now ops =
    run-Inv (new_session id typ option now) ops (new_session-Inv id typ option now)

step_counts :
    (s : Session) (op : Op)
    → (count s.close_fn_called + (step s op).1 ≡ count (step s op).0.close_fn_called)
      × (count (not s.done) + (step s op).2 ≡ count (not (step s op).0.done))
unfolding step
step_counts s (requests info) = ground arith
step_counts s (finalizes info now) = ground arith
step_counts s op = ground arith

run_counts :
    (s : Session) (ops : List Op)
    → (count s.close_fn_called + (run s ops).1 ≡ count (run s ops).0.close_fn_called)
      × (count (not s.done) + (run s ops).2 ≡ count (not (run s ops).0.done))
unfolding run
run_counts s [] = (omega arith, omega arith)
run_counts s (op ∷ ops) =
    let a = step_counts s op in
    let b = run_counts (step s op).0 ops in (omega (arith, a.0, b.0), omega (arith, a.1, b.1))

count-le-one : (b : Bool) → count b ≤ 1
count-le-one true = omega arith
count-le-one false = omega arith

-- Whatever methods are called on a new session, in whatever order and however often, the close
-- function is called at most once and the channel `done` is closed at most once: exactly as often as
-- the final state says.
pub run_once :
    (id : Text) (typ : CallType) (option : Option CallOption) (now : ℕ) (ops : List Op)
    → let (s, calls, signals) = run (new_session id typ option now) ops in
      (calls ≤ 1)
      × (signals ≤ 1)
      × (calls ≡ (if s.close_fn_called then 1 else 0))
      × (signals ≡ (if s.done then 0 else 1))
unfolding new_session
run_once id typ option now ops = ground (arith, run_counts (new_session id typ option now) ops)

-- Every field of `c` that is not empty stands in `d` too.
abbrev pub FirstWins : CloseInfo → CloseInfo → Type 0
FirstWins c d =
    (is_unset c.cause ≡ false → d.cause ≡ c.cause)
    × (is_empty c.reason ≡ false → d.reason ≡ c.reason)
    × (is_empty c.initiator ≡ false → d.initiator ≡ c.initiator)
    × (is_empty c.err ≡ false → d.err ≡ c.err)

or_else-first : (a b : Text) → is_empty a ≡ false → or_else a b ≡ a
unfolding or_else
or_else-first a b h = rw h

merge-FirstWins : (c d : CloseInfo) → FirstWins c (merge_close_info c d)
unfolding merge_close_info
merge-FirstWins c d = (
  (λ h. rw h),
  or_else-first c.reason d.reason,
  or_else-first c.initiator d.initiator,
  or_else-first c.err d.err,
)

blank-FirstWins : (c d : CloseInfo) → c ≡ no_close_info → FirstWins c d
blank-FirstWins c d e = rw e ((λ h. cc), (λ h. cc), (λ h. cc), (λ h. cc))

FirstWins-refl : (c : CloseInfo) → FirstWins c c
FirstWins-refl c = ((λ _. refl), (λ _. refl), (λ _. refl), (λ _. refl))

recorded-FirstWins :
    (s : Session) (merged fresh : CloseInfo)
    → Inv s
    → FirstWins s.close_info
        (if s.close_requested then merge_close_info s.close_info merged else fresh)
recorded-FirstWins s merged fresh h =
    if_intro (FirstWins s.close_info) s.close_requested (λ _. merge-FirstWins s.close_info merged)
      (λ e. blank-FirstWins s.close_info fresh (h.blank e))

-- The first one wins: once the close info of a session that meets the invariant has a cause, a
-- reason, an initiator or an error text, no method changes that field.
pub step-FirstWins :
    (s : Session) (op : Op) → Inv s → FirstWins s.close_info (step s op).0.close_info
unfolding step
step-FirstWins s (requests info) h = recorded-FirstWins s _ _ h
step-FirstWins s (fails err) h = recorded-FirstWins s _ _ h
step-FirstWins s (finalizes info now) h = recorded-FirstWins s _ _ h
step-FirstWins s (begins option) h =
    if_intro (λ (t : Session). FirstWins s.close_info t.close_info) (is_terminal s.state)
      (λ _. FirstWins-refl s.close_info) (λ _. FirstWins-refl s.close_info)
step-FirstWins s activates h =
    if_intro (λ (t : Session). FirstWins s.close_info t.close_info) (is_terminal s.state)
      (λ _. FirstWins-refl s.close_info) (λ _. FirstWins-refl s.close_info)
step-FirstWins s (starts_track prefix none) h = FirstWins-refl s.close_info
step-FirstWins s (starts_track prefix (some own)) h =
    if_intro (λ (t : Session × Text). FirstWins s.close_info t.0.close_info) (is_empty own)
      (λ _. FirstWins-refl s.close_info) (λ _. FirstWins-refl s.close_info)
step-FirstWins s op h = FirstWins-refl s.close_info

-- Open, then closing or failed, then closed.
abbrev pub rank : State → ℕ
rank closing = 1
rank failed = 1
rank closed = 2
rank _ = 0

-- A session never goes back: no method lowers its rank (open, then closing or failed, then closed),
-- and a closed session keeps its state and the time of its end.
step_forward :
    (s : Session) (op : Op)
    → (rank s.state ≤ rank (step s op).0.state)
      × (s.state ≡ closed
          → ((step s op).0.state ≡ closed) × ((step s op).0.closed_at ≡ s.closed_at))
unfolding step
step_forward s (requests info) = ground arith
step_forward s op = ground arith
