-- ===== src/Session/Snapshot.antt =====
-- session.go: what other goroutines read of a session, and how it hangs together.
use gopbx.Prelude.{
  ℕ, ◌≡◌, refl, ◌∙◌, Bool, true, false, not, List, [], ◌∷◌, Option, none, some, Text, arith, ap,
}
use gopbx.Protocol.Command.{CommandName, CallOption}
use gopbx.Session.State.{
  CallType, State, Session, CloseInfo, new_session, is_closed, is_terminal, is_unset,
  begin_handshake, mark_active, request_close, fail, bind_close_func, finalize,
}
use gopbx.Session.Lifecycle.{
  Op, requests, fails, finalizes, step, run, Inv, step-Inv, new_session-Inv,
}

-- `Snapshot`
pub record Snapshot : Type 0 where
  pub id : Text
  pub call_type : CallType
  pub created_at : ℕ
  pub option : Option CallOption
  pub commands : List CommandName
  pub state : State
  pub dump : Bool
  pub answer : Text
  pub answered_at : Option ℕ
  pub closed_at : Option ℕ
  pub close_info : CloseInfo

unfoldable pub snapshot : Session → Snapshot
snapshot s = record {
  id = s.id;
  call_type = s.call_type;
  created_at = s.created_at;
  option = s.option;
  commands = s.commands;
  state = s.state;
  dump = s.dump;
  answer = s.answer;
  answered_at = s.answered_at;
  closed_at = s.closed_at;
  close_info = s.close_info;
}

abbrev pub is_some {ℓ} : {A : Type ℓ} → Option A → Bool
is_some none = false
is_some (some a) = true

-- A snapshot has an end time exactly where it is closed, and a cause of its end exactly where it is closing,
-- failed or closed.
pub record Consistent (t : Snapshot) : Type 0 where
  pub ended : is_some t.closed_at ≡ is_closed t.state
  pub caused : not (is_unset t.close_info.cause) ≡ is_terminal t.state

abbrev Ended : Session → Type 0
Ended s = is_some s.closed_at ≡ is_closed s.state

step-Ended : (s : Session) (op : Op) → Ended s → Ended (step s op).0
unfolding step begin_handshake mark_active request_close fail bind_close_func finalize
step-Ended s (requests info) h = ground arith
step-Ended s (fails err) h = ground arith
step-Ended s (finalizes info now) h = ground arith
step-Ended s op h = ground arith

run-kept : (s : Session) (ops : List Op) → Ended s → Inv s → Ended (run s ops).0 × Inv (run s ops).0
unfolding run
run-kept s [] h i = (h, i)
run-kept s (op ∷ ops) h i = run-kept (step s op).0 ops (step-Ended s op h) (step-Inv s op i)

caused-by :
    (s : Session) (b : Bool) → s.close_requested ≡ b → Inv s → not (is_unset s.close_info.cause) ≡ b
caused-by s true e h = ap not (h.cause_set e)
caused-by s false e h = ap (λ info. not (is_unset info.cause)) (h.blank e)

-- Whatever methods run on a new session, each snapshot of it is consistent.
snapshot-Consistent :
    (id : Text) (typ : CallType) (option : Option CallOption) (now : ℕ) (ops : List Op)
    → Consistent (snapshot (run (new_session id typ option now) ops).0)
unfolding snapshot new_session
snapshot-Consistent id typ option now ops =
    let s = (run (new_session id typ option now) ops).0 in
    let (e, i) =
      run-kept (new_session id typ option now) ops refl (new_session-Inv id typ option now) in
    record { ended = e; caused = caused-by s s.close_requested refl i ∙ i.requested }
