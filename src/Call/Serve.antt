-- ===== src/Call/Serve.antt =====
-- call_handler.go: `serveWS` around its loop: the answer, the call record, and the whole of a call from the
-- connection to the record. The WebSocket and the negotiation of WebRTC are inputs.
use gopbx.Prelude.{
  ℕ, ℤ, Bool, true, false, List, [], ◌∷◌, ◌++◌, Option, none, some, Text, codes, is_empty,
  if◌then◌else◌, get_elem?, set, Fallible, ok, failure,
}
use gopbx.Protocol.Event.{EventEnvelope, envelope, answer, new_error_event}
use gopbx.Protocol.Command.{CommandName, CallOption, deref_text}
use gopbx.Protocol.Writer.{WriteFault, write_events}
use gopbx.Session.State.{
  CallType, Session, CloseInfo, disconnect, begin_handshake, set_dump_enabled, bind_close_func,
  bind_tts_sink, record_answer, mark_active, is_unset, new_session,
}
use gopbx.Session.Manager.{Manager, create, cleanup}
use gopbx.Call.Handler.{Handling, Incoming, break_off, refuse, is_webrtc, loop}
use gopbx.Call.Setup.{decode_command, World, check_first, parse_dump_flag}

-- What a client asks for when it connects, and what the connection then brings: the identifier and the
-- dump flag of the query, the identifier that `newSessionID` makes, the first message if it is read at
-- all, what comes of the negotiation of WebRTC, the write of the answer if it fails, and the messages of
-- the loop. `dump_path` is where the dump writer writes, "" for none.
pub record Connection : Type 0 where
  pub call_type : CallType
  pub query_id : Text
  pub fresh_id : Text
  pub dump : Text
  pub dump_path : Text
  pub first : Option (Bool × Text)
  pub negotiated : Fallible Text
  pub answer_fault : WriteFault
  pub messages : List Incoming

-- The identifier of the call.
abbrev pub call_id : Connection → Text
call_id c = if is_empty c.query_id then c.fresh_id else c.query_id

-- `buildAnswerSDP`: only WebRTC negotiates.
unfoldable pub build_answer_sdp : Connection → Fallible Text
build_answer_sdp c = if is_webrtc c.call_type then c.negotiated else ok []

-- What is done to the new session up to the answer.
unfoldable pub prepare : Connection → Option CallOption → Session → Session
unfolding set_dump_enabled begin_handshake bind_close_func parse_dump_flag
prepare c option s =
    (bind_close_func (begin_handshake (set_dump_enabled s (parse_dump_flag c.dump)) option) true).0

-- After the answer was written: `RecordAnswer` and `MarkActive`.
unfoldable pub activate : Session → Text → ℕ → Session
unfolding record_answer mark_active
activate s sdp now = mark_active (record_answer s sdp now)

-- What follows the write of the answer, given its error.
abbrev pub after_answer : Handling → Text → List EventEnvelope → ℕ → Option Text → Handling × Bool
after_answer h sdp sent now (some e) = (break_off h e, false)
after_answer h sdp sent now none =
    (record h { session = activate h.session sdp now; written = h.written ++ sent }, true)

-- What follows `buildAnswerSDP`. `now` and `clock` are the time as the session and the events count it.
unfoldable pub answered : Connection → Handling → ℕ → ℤ → Fallible Text → Handling × Bool
unfolding bind_tts_sink write_events activate refuse break_off
answered c h now clock (failure e) = refuse h e clock
answered c h now clock (ok sdp) =
    let bound : Handling = record h { session = bind_tts_sink h.session (is_webrtc c.call_type) } in
    let event = record (envelope answer clock) { track_id = h.session.id; sdp = sdp } in
    let (sent, err) = write_events (event ∷ []) c.answer_fault in
    after_answer bound sdp sent now err

-- The answer, with whether the loop is entered.
unfoldable pub give_answer : Connection → Handling → ℕ → ℤ → Handling × Bool
unfolding build_answer_sdp answered
give_answer c h now clock = answered c h now clock (build_answer_sdp c)

-- The call from the new session on: the answer and, where it was given, the loop.
unfoldable pub handle : World → Connection → Option CallOption → Session → ℕ → ℤ → Handling
unfolding prepare give_answer loop decode_command
handle w c option s now clock =
    let start : Handling = record {
      session = prepare c option s;
      close_info = record { cause = disconnect; reason = []; initiator = []; err = [] };
      written = [];
    } in
    let (h, goes_on) = give_answer c start now clock in
    if goes_on
    then loop w.router (decode_command w.unmarshal) (is_webrtc c.call_type) h c.messages
    else h

-- `callrecord.Record`
pub record Record : Type 0 where
  pub call_type : CallType
  pub call_id : Text
  pub start_time : ℕ
  pub end_time : ℕ
  pub caller : Text
  pub callee : Text
  pub offer : Text
  pub answer : Text
  pub hangup_reason : Text
  pub hangup_initiator : Text
  pub error : Text
  pub commands : List CommandName
  pub dump_event_file : Text

-- `optionCaller`, `optionCallee` and `optionOffer`
abbrev option_text : (CallOption → Option Text) → Option CallOption → Text
option_text field none = []
option_text field (some o) = deref_text (field o)

unfoldable pub build_call_record : Session → CloseInfo → Text → Record
unfolding deref_text
build_call_record s close_info dump_path =
    let info = if is_unset s.close_info.cause then close_info else s.close_info in
    record {
      call_type = s.call_type;
      call_id = s.id;
      start_time = s.created_at;
      end_time = elim s.closed_at [ none ↦ s.created_at | some t ↦ t ];
      caller = option_text (λ (o : CallOption). o.caller) s.option;
      callee = option_text (λ (o : CallOption). o.callee) s.option;
      offer = option_text (λ (o : CallOption). o.offer) s.option;
      answer = s.answer;
      hangup_reason = info.reason;
      hangup_initiator = info.initiator;
      error = info.err;
      commands = s.commands;
      dump_event_file = dump_path;
    }

-- What a connection leaves behind: the registry, the events sent, and the call record, if one is written.
pub record Served : Type 0 where
  pub manager : Manager
  pub written : List EventEnvelope
  pub record_written : Option Record

-- The record of a session, if there is one.
abbrev pub record_of : CloseInfo → Text → Option Session → Option Record
record_of info dump_path none = none
record_of info dump_path (some s) = some (build_call_record s info dump_path)

-- The deferred function of `serveWS` for a session at a place: `Cleanup`, then the record.
unfoldable pub wind_up : Manager → ℕ → Handling → Text → ℕ → Served
unfolding cleanup build_call_record
wind_up m place h dump_path end =
    let kept = record m { heap = set m.heap place h.session } in
    let (after, _) = cleanup kept (some place) h.close_info end in
    record {
      manager = after;
      written = h.written;
      record_written = record_of h.close_info dump_path (get_elem? after.heap place);
    }

-- What follows the checks of the first message. The handler's session stands in its record until the end,
-- where it is put back on the heap.
unfoldable pub serve_checked :
    World → Manager → Connection → ℕ → ℕ → ℤ → Fallible (Option CallOption) → Served
unfolding create handle wind_up
serve_checked w m c now end clock (failure e) = record {
  manager = m;
  written = new_error_event (call_id c) (codes "handle_call") e clock ∷ [];
  record_written = none;
}
serve_checked w m c now end clock (ok option) =
    let (m1, place) = create m (call_id c) c.call_type option now in
    let s = new_session (call_id c) c.call_type option now in
    wind_up m1 place (handle w c option s now clock) c.dump_path end

-- What follows the first read.
unfoldable pub serve_first :
    World → Manager → Connection → ℕ → ℕ → ℤ → Option (Bool × Text) → Served
unfolding check_first serve_checked
serve_first w m c now end clock none = record { manager = m; written = []; record_written = none }
serve_first w m c now end clock (some (is_text, raw)) =
    serve_checked w m c now end clock (check_first w is_text raw)

-- `serveWS`, from the connection at the time `now` to its end at the time `end`.
unfoldable pub serve_ws : World → Manager → Connection → ℕ → ℕ → ℤ → Served
unfolding serve_first
serve_ws w m c now end clock = serve_first w m c now end clock c.first
