-- ===== src/Call/ServeLaws.antt =====
-- call_handler.go: what a connection leaves behind.
use gopbx.Prelude.{
  ℕ, ◌≡◌, refl, sym, ap, ◌∙◌, ℤ, Bool, false, Option, none, some, Text, Fallible, ok, failure,
  arith, get_elem?, set, length, get_elem?-set_self, ◌<◌, subst, All, ◌⊎◌, inl, inr, ◌≤◌,
  length-append,
}
use gopbx.Protocol.Command.{CallOption}
use gopbx.Protocol.Event.{EventEnvelope, new_error_event, envelope, answer}
use gopbx.Session.State.{
  Session, CloseInfo, closed, is_closed, finalize, new_session, is_unset, CallType,
}
use gopbx.Session.Manager.{Manager, create, find, cleanup}
use gopbx.Session.ManagerLaws.{cleanup_removes}
use gopbx.Call.Handler.{Handling}
use gopbx.Call.Setup.{World, check_first}
use gopbx.Call.Serve.{
  Connection, call_id, handle, build_call_record, Record, Served, wind_up, serve_ws, serve_first,
  serve_checked, record_of,
}
use gopbx.Call.LiveLaws.{Live, handle-Live}

-- What a call that was accepted leaves behind: its identifier is out of the registry, its session is closed
-- at its place on the heap, and the record is that of the session.
abbrev pub LeavesRecord : Connection → Manager → Served → Type 0
LeavesRecord c m r =
    (find r.manager (call_id c) ≡ none)
    × ((s : Session) × (rec : Record) × (get_elem? r.manager.heap (length m.heap) ≡ some s)
        × (s.state ≡ closed)
        × (r.record_written ≡ some rec)
        × (rec.call_id ≡ call_id c)
        × (rec.hangup_reason ≡ s.close_info.reason)
        × (rec.hangup_initiator ≡ s.close_info.initiator)
        × (rec.error ≡ s.close_info.err)
        × (s.closed_at ≡ some rec.end_time))

record Finalized (s t : Session) (end : ℕ) : Type 0 where
  state : t.state ≡ closed
  id : t.id ≡ s.id
  ended : t.closed_at ≡ some end
  cause : is_unset t.close_info.cause ≡ false

finalize-facts :
    (s : Session) (info : CloseInfo) (end : ℕ)
    → is_closed s.state ≡ false
    → Finalized s (finalize s info end).0 end
unfolding finalize
finalize-facts s info end h = ground arith

record Told (s : Session) (rec : Record) (end : ℕ) : Type 0 where
  reason : rec.hangup_reason ≡ s.close_info.reason
  initiator : rec.hangup_initiator ≡ s.close_info.initiator
  error : rec.error ≡ s.close_info.err
  ended : rec.end_time ≡ end

build_call_record-facts :
    (s : Session) (info : CloseInfo) (dump_path : Text) (end : ℕ)
    → is_unset s.close_info.cause ≡ false
    → s.closed_at ≡ some end
    → Told s (build_call_record s info dump_path) end
unfolding build_call_record
build_call_record-facts s info dump_path end u e = ground arith

wind_up-LeavesRecord :
    (c : Connection) (m m1 : Manager) (h : Handling) (end : ℕ)
    → length m.heap < length m1.heap
    → Live (call_id c) h.session
    → LeavesRecord c m (wind_up m1 (length m.heap) h c.dump_path end)
unfolding wind_up
wind_up-LeavesRecord c m m1 h end room l =
    let kept = record m1 { heap = set m1.heap (length m.heap) h.session } in
    let there = get_elem?-set_self m1.heap (length m.heap) h.session room in
    let removed = cleanup_removes kept (length m.heap) h.session h.close_info end there in
    let s = (finalize h.session h.close_info end).0 in
    let done = finalize-facts h.session h.close_info end l.1 in
    let told = build_call_record-facts s h.close_info c.dump_path end done.cause done.ended in
    (
      subst (λ i. find (cleanup kept (some (length m.heap)) h.close_info end).0 i ≡ none) l.0
          removed.0,
      (
        s,
        build_call_record s h.close_info c.dump_path,
        removed.2,
        done.state,
        ap (record_of h.close_info c.dump_path) removed.2,
        done.id ∙ l.0,
        told.reason,
        told.initiator,
        told.error,
        done.ended ∙ ap some (sym told.ended),
      ),
    )

-- Nothing happened but an error event, or a call left its record.
abbrev pub Outcome : Connection → Manager → Served → Type 0
Outcome c m r =
    ((r.manager ≡ m)
      × (r.record_written ≡ none)
      × (length r.written ≤ 1)
      × All (λ e. e.event ≡ gopbx.Protocol.Event.error) r.written)
    ⊎ LeavesRecord c m r

new_session-Live :
    (id : Text) (typ : CallType) (option : Option CallOption) (now : ℕ)
    → Live id (new_session id typ option now)
unfolding new_session
new_session-Live id typ option now = (refl, refl)

create-room :
    (m : Manager) (id : Text) (typ : CallType) (option : Option CallOption) (now : ℕ)
    → length m.heap < length (create m id typ option now).0.heap
unfolding create
create-room m id typ option now = omega (arith, length-append {0})

serve_checked-Outcome :
    (w : World) (m : Manager) (c : Connection) (now end : ℕ) (clock : ℤ)
    (o : Fallible (Option CallOption))
    → Outcome c m (serve_checked w m c now end clock o)
unfolding serve_checked new_error_event
serve_checked-Outcome w m c now end clock (failure e) = inl (refl, refl, omega arith, (refl, tt))
serve_checked-Outcome w m c now end clock (ok option) =
    let m1 = (create m (call_id c) c.call_type option now).0 in
    let s = new_session (call_id c) c.call_type option now in
    inr (
      wind_up-LeavesRecord c m m1 (handle w c option s now clock) end
        (create-room m (call_id c) c.call_type option now)
        (handle-Live (call_id c) w c option s now clock
          (new_session-Live (call_id c) c.call_type option now)))

serve_first-Outcome :
    (w : World) (m : Manager) (c : Connection) (now end : ℕ) (clock : ℤ)
    (first : Option (Bool × Text))
    → Outcome c m (serve_first w m c now end clock first)
unfolding serve_first
serve_first-Outcome w m c now end clock none = inl (refl, refl, omega arith, tt)
serve_first-Outcome w m c now end clock (some (is_text, raw)) =
    serve_checked-Outcome w m c now end clock (check_first w is_text raw)

-- A connection either fails before there is a session, and then leaves the registry as it is, writes no call
-- record, and sends at most one event, an error; or it leaves its record: afterwards its identifier is out
-- of the registry, its session is closed, and the record has the identifier, the end time and the reason,
-- the initiator and the error of that session.
pub serve_ws-Outcome :
    (w : World) (m : Manager) (c : Connection) (now end : ℕ) (clock : ℤ)
    → Outcome c m (serve_ws w m c now end clock)
unfolding serve_ws
serve_ws-Outcome w m c now end clock = serve_first-Outcome w m c now end clock c.first
