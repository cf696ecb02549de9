-- ===== src/Call/LiveLaws.antt =====
-- call_handler.go: a session stays the one of its call, and open, until its cleanup.
use gopbx.Prelude.{
  ap, ◌∙◌, ℕ, ◌≡◌, ℤ, false, List, [], ◌∷◌, Option, none, some, Text, Fallible, ok, failure, arith,
  if_intro,
}
use gopbx.Protocol.Command.{CommandEnvelope, CommandName, CallOption, tts, play, history, interrupt}
use gopbx.Protocol.Event.{EventEnvelope, envelope, answer}
use gopbx.Protocol.Writer.{write_events}
use gopbx.Session.State.{
  Session, CloseInfo, request_close, append_command, fail, closed, is_closed, finalize, new_session,
  bind_tts_sink, is_unset, CallType,
}
use gopbx.Session.Track.{start_track, clear_track}
use gopbx.Session.Router.{Outside, route, respond, route_tts, route_play, route_interrupt}
use gopbx.Call.Handler.{Handling, is_webrtc}
use gopbx.Call.Setup.{World}
use gopbx.Call.KeepLaws.{break_off-keeps, refuse-keeps, loop-keeps}
use gopbx.Call.Serve.{
  Connection, prepare, activate, give_answer, handle, build_answer_sdp, answered, after_answer,
}

-- The session has this identifier and is not closed.
abbrev pub Live : Text → Session → Type 0
Live id s = (s.id ≡ id) × (is_closed s.state ≡ false)

request_close-Live :
    (id : Text) (s : Session) (info : CloseInfo) → Live id s → Live id (request_close s info).0
unfolding request_close
request_close-Live id s info h = ground arith

-- A command changes none of these.
pub record Same (s t : Session) : Type 0 where
  pub id : t.id ≡ s.id
  pub state : t.state ≡ s.state
  pub requested : t.close_requested ≡ s.close_requested
  pub info : t.close_info ≡ s.close_info

module _ (out : Outside) (cmd : CommandEnvelope) (now later : ℤ) where
  respond-Same : (name : CommandName) (s : Session) → Same s (respond out name s cmd now later).0
  unfolding respond route_tts route_play route_interrupt start_track clear_track
  respond-Same tts s = ground arith
  respond-Same play s = ground arith
  respond-Same history s = ground arith
  respond-Same interrupt s = ground arith
  respond-Same gopbx.Protocol.Command.hangup s = ground arith
  respond-Same _ s = ground arith

  pub route-Same : (s : Session) → Same s (route out s cmd now later).0
  unfolding route append_command
  route-Same s =
      let h = respond-Same cmd.command (append_command s cmd.command) in
      record { id = h.id; state = h.state; requested = h.requested; info = h.info }

route-Live :
    (id : Text) (out : Outside) (s : Session) (cmd : CommandEnvelope) (now later : ℤ)
    → Live id s
    → Live id (route out s cmd now later).0
route-Live id out s cmd now later h =
    let same = route-Same out cmd now later s in (same.id ∙ h.0, ap is_closed same.state ∙ h.1)

prepare-Live :
    (id : Text) (c : Connection) (option : Option CallOption) (s : Session)
    → Live id s
    → Live id (prepare c option s)
unfolding prepare
prepare-Live id c option s h = ground arith

activate-Live :
    (id : Text) (s : Session) (sdp : Text) (now : ℕ) → Live id s → Live id (activate s sdp now)
unfolding activate
activate-Live id s sdp now h = ground arith

after_answer-Live :
    (id : Text) (h : Handling) (sdp : Text) (sent : List EventEnvelope) (now : ℕ)
    (err : Option Text)
    → Live id h.session
    → Live id (after_answer h sdp sent now err).0.session
after_answer-Live id h sdp sent now none l = activate-Live id h.session sdp now l
after_answer-Live id h sdp sent now (some e) l =
    break_off-keeps (Live id) (request_close-Live id) h e l

answered-Live :
    (id : Text) (c : Connection) (h : Handling) (now : ℕ) (clock : ℤ) (sdp : Fallible Text)
    → Live id h.session
    → Live id (answered c h now clock sdp).0.session
unfolding answered bind_tts_sink
answered-Live id c h now clock (failure e) l =
    refuse-keeps (Live id) (request_close-Live id) h e clock l
answered-Live id c h now clock (ok sdp) l =
    let bound : Handling = record h { session = bind_tts_sink h.session (is_webrtc c.call_type) } in
    let event : EventEnvelope = record (envelope answer clock) {
      track_id = h.session.id;
      sdp = sdp;
    } in
    let sent = write_events (event ∷ []) c.answer_fault in
    after_answer-Live id bound sdp sent.0 now sent.1 l

pub handle-Live :
    (id : Text) (w : World) (c : Connection) (option : Option CallOption) (s : Session) (now : ℕ)
    (clock : ℤ)
    → Live id s
    → Live id (handle w c option s now clock).session
unfolding handle give_answer
handle-Live id w c option s now clock l =
    let start : Handling = record {
      session = prepare c option s;
      close_info = record {
        cause = gopbx.Session.State.disconnect;
        reason = [];
        initiator = [];
        err = [];
      };
      written = [];
    } in
    let a =
      answered-Live id c start now clock (build_answer_sdp c) (prepare-Live id c option s l) in
    if_intro (λ (k : Handling). Live id k.session) (give_answer c start now clock).1
      (λ e.
        loop-keeps (Live id) (request_close-Live id) w.router _ (is_webrtc c.call_type)
          (route-Live id w.router) _ c.messages a)
      (λ e. a)
