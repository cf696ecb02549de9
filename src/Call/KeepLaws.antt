-- ===== src/Call/KeepLaws.antt =====
-- call_handler.go: what holds of a session under every close request and every command holds of it throughout
-- the handler's loop.
use gopbx.Prelude.{
  ℤ, ◌&&◌, Bool, true, List, [], ◌∷◌, ◌++◌, Option, none, some, Text, Fallible, ok, failure,
  if_intro,
}
use gopbx.Protocol.Command.{CommandEnvelope}
use gopbx.Protocol.Writer.{WriteFault, write_events}
use gopbx.Session.State.{Session, CloseInfo, request_close, fail}
use gopbx.Session.Router.{Outside, route}
use gopbx.Call.Handler.{
  Handling, Incoming, read_error, binary_message, text_message, other_message, is_webrtc,
  is_candidate, break_off, refuse, unless_fault, after_route, after_candidates, obey, decoded, turn,
  loop,
}

module _ (P : Session → Type 0)
    (on_request : (s : Session) (info : CloseInfo) → P s → P (request_close s info).0) where
  pub break_off-keeps : (h : Handling) (err : Text) → P h.session → P (break_off h err).session
  unfolding break_off fail
  break_off-keeps h err l = on_request h.session _ l

  pub refuse-keeps :
      (h : Handling) (err : Text) (later : ℤ) → P h.session → P (refuse h err later).0.session
  unfolding refuse
  refuse-keeps h err later l = break_off-keeps h err l

  after_candidates-keeps :
      (h : Handling) (refused : Option Text) (later : ℤ)
      → P h.session
      → P (after_candidates h refused later).0.session
  after_candidates-keeps h none later l = l
  after_candidates-keeps h (some err) later l = refuse-keeps h err later l

  after_route-keeps :
      (h : Handling) (close : Option CloseInfo) → P h.session → P (after_route h close).0.session
  after_route-keeps h none l = l
  after_route-keeps h (some info) l = on_request h.session info l

  unless_fault-keeps :
      (h : Handling) (err : Option Text) (next : Handling × Bool)
      → P h.session
      → P next.0.session
      → P (unless_fault h err next).0.session
  unless_fault-keeps h none next l n = n
  unless_fault-keeps h (some err) next l n = break_off-keeps h err l

  module _ (out : Outside) (decode : Text → Fallible CommandEnvelope) (has_track : Bool)
      (on_route : (s : Session) (cmd : CommandEnvelope) (now later : ℤ)
        → P s
        → P (route out s cmd now later).0) where
    abbrev Goes : Handling × Bool → Type 0
    Goes r = P r.0.session

    obey-keeps :
        (h : Handling) (cmd : CommandEnvelope) (refused : Option Text) (fault : WriteFault)
        (now later : ℤ)
        → P h.session
        → Goes (obey out decode has_track h cmd refused fault now later)
    unfolding obey
    obey-keeps h cmd refused fault now later l =
        let reply = route out h.session cmd now later in
        let sent = write_events reply.1.events fault in
        let routed : Handling = record h { session = reply.0; written = h.written ++ sent.0 } in
        let kept = on_route h.session cmd now later l in
        if_intro Goes (is_webrtc h.session.call_type && (has_track && is_candidate cmd.command))
          (λ e. after_candidates-keeps h refused later l)
          (λ e.
            unless_fault-keeps routed sent.1 (after_route routed reply.1.close) kept
              (after_route-keeps routed reply.1.close kept))

    decoded-keeps :
        (h : Handling) (cmd : Fallible CommandEnvelope) (refused : Option Text) (fault : WriteFault)
        (now later : ℤ)
        → P h.session
        → Goes (decoded out decode has_track h cmd refused fault now later)
    decoded-keeps h (failure e) refused fault now later l = refuse-keeps h e later l
    decoded-keeps h (ok cmd) refused fault now later l = obey-keeps h cmd refused fault now later l

    pub turn-keeps :
        (h : Handling) (message : Incoming)
        → P h.session
        → P (turn out decode has_track h message).0.session
    unfolding turn
    turn-keeps h read_error l = l
    turn-keeps h (binary_message events fault) l =
        let sent = write_events events fault in
        let heard : Handling = record h { written = h.written ++ sent.0 } in
        if_intro Goes (is_webrtc h.session.call_type) (λ e. l)
          (λ e. unless_fault-keeps heard sent.1 (heard, true) l l)
    turn-keeps h (text_message raw refused fault now later) l =
        decoded-keeps h (decode raw) refused fault now later l
    turn-keeps h other_message l = l

    pub loop-keeps :
        (h : Handling) (messages : List Incoming)
        → P h.session
        → P (loop out decode has_track h messages).session
    unfolding loop
    loop-keeps h [] l = l
    loop-keeps h (message ∷ messages) l =
        let next = turn-keeps h message l in
        if_intro (λ (k : Handling). P k.session) (turn out decode has_track h message).1
          (λ e. loop-keeps (turn out decode has_track h message).0 messages next) (λ e. next)
