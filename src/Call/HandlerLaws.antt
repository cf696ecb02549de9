-- ===== src/Call/HandlerLaws.antt =====
-- call_handler.go: how a call ends.
use gopbx.Prelude.{
  ◌≡◌, refl, ap, ◌∙◌, ℤ, Bool, ◌&&◌, true, false, List, [], ◌∷◌, ◌++◌, Option, none, some, Text,
  ◌⊎◌, inl, inr, arith, if_intro, Fallible, ok, failure,
}
use gopbx.Protocol.Command.{CommandEnvelope, CommandName, tts, play, history, interrupt}
use gopbx.Session.State.{
  is_unset, normalize_close_info, Session, CloseInfo, request_close, append_command, fail, closed,
  finalize,
}
use gopbx.Session.Track.{start_track, clear_track}
use gopbx.Session.Router.{Outside, route, respond, route_tts, route_play, route_interrupt}
use gopbx.Session.RouterLaws.{route-Closes}
use gopbx.Protocol.Writer.{WriteFault, write_events}
use gopbx.Call.Handler.{
  is_webrtc, is_candidate, Incoming, Handling, read_error, binary_message, text_message,
  other_message, refuse, after_candidates, break_off, unless_fault, after_route, obey, decoded,
  turn, loop,
}

-- The lifecycle of one session is that of another.
abbrev SameLife : Session → Session → Type 0
SameLife s t =
    (s.close_requested ≡ t.close_requested) × (s.close_info ≡ t.close_info) × (s.state ≡ t.state)

module _ (out : Outside) (cmd : CommandEnvelope) (now later : ℤ) where
  respond-SameLife :
      (name : CommandName) (s : Session) → SameLife (respond out name s cmd now later).0 s
  unfolding respond route_tts route_play route_interrupt start_track clear_track
  respond-SameLife tts s = ground arith
  respond-SameLife play s = ground arith
  respond-SameLife history s = (refl, refl, refl)
  respond-SameLife interrupt s = (refl, refl, refl)
  respond-SameLife gopbx.Protocol.Command.hangup s = (refl, refl, refl)
  respond-SameLife _ s = (refl, refl, refl)

  route-SameLife : (s : Session) → SameLife (route out s cmd now later).0 s
  unfolding route append_command
  route-SameLife s = respond-SameLife cmd.command (append_command s cmd.command)

-- The handler and its session agree on the end: either nobody asked for it, and the handler has the close
-- info that it started with, or the session was asked to close with the handler's close info.
abbrev pub Agrees : CloseInfo → Handling → Type 0
Agrees start h =
    ((h.session.close_requested ≡ false) × (h.close_info ≡ start))
    ⊎ ((h.session.close_requested ≡ true) × (h.session.close_info ≡ h.close_info))

-- A turn of the loop that goes on asks for nothing.
abbrev Turned : CloseInfo → Handling × Bool → Type 0
Turned start (h, goes_on) =
    (goes_on ≡ true → (h.session.close_requested ≡ false) × (h.close_info ≡ start)) × Agrees start h

abbrev Open : CloseInfo → Handling → Type 0
Open start h = (h.session.close_requested ≡ false) × (h.close_info ≡ start)

request_close-records :
    (s : Session) (info : CloseInfo)
    → s.close_requested ≡ false
    → is_unset info.cause ≡ false
    → (request_close s info).0.close_info ≡ info
unfolding request_close normalize_close_info
request_close-records s info e u = rw (e, u)

request_close-asks :
    (s : Session) (info : CloseInfo) → (request_close s info).0.close_requested ≡ true
unfolding request_close
request_close-asks s info = refl

break_off-Agrees :
    (start : CloseInfo) (h : Handling) (err : Text)
    → Open start h
    → Turned start (break_off h err, false)
unfolding break_off fail
break_off-Agrees start h err o = (
  (λ e. cc),
  inr (
    refl,
    request_close-records h.session
        (record { cause = gopbx.Session.State.error; reason = []; initiator = []; err = err }) o.0
        refl,
  ),
)

refuse-Turned :
    (start : CloseInfo) (h : Handling) (err : Text) (later : ℤ)
    → Open start h
    → Turned start (refuse h err later)
unfolding refuse
refuse-Turned start h err later o = break_off-Agrees start h err o

after_candidates-Turned :
    (start : CloseInfo) (h : Handling) (refused : Option Text) (later : ℤ)
    → Open start h
    → Turned start (after_candidates h refused later)
after_candidates-Turned start h none later o = ((λ e. o), inl o)
after_candidates-Turned start h (some err) later o = refuse-Turned start h err later o

stays-Turned : (start : CloseInfo) (h : Handling) → Open start h → Turned start (h, true)
stays-Turned start h o = ((λ e. o), inl o)

unless_fault-Turned :
    (start : CloseInfo) (h : Handling) (err : Option Text) (next : Handling × Bool)
    → Open start h
    → Turned start next
    → Turned start (unless_fault h err next)
unless_fault-Turned start h none next o t = t
unless_fault-Turned start h (some err) next o t = break_off-Agrees start h err o

after_route-Turned :
    (start : CloseInfo) (h : Handling) (close : Option CloseInfo)
    → Open start h
    → ((info : CloseInfo) → close ≡ some info → info.cause ≡ gopbx.Session.State.hangup)
    → Turned start (after_route h close)
after_route-Turned start h none o c = stays-Turned start h o
after_route-Turned start h (some info) o c =
    let set : is_unset info.cause ≡ false = ap is_unset (c info refl) in
    (
      (λ e. cc),
      inr (request_close-asks h.session info, request_close-records h.session info o.0 set),
    )

module _ (out : Outside) (decode : Text → Fallible CommandEnvelope) (has_track : Bool) where
  obey-Turned :
      (start : CloseInfo) (h : Handling) (cmd : CommandEnvelope) (refused : Option Text)
      (fault : WriteFault) (now later : ℤ)
      → Open start h
      → Turned start (obey out decode has_track h cmd refused fault now later)
  unfolding obey
  obey-Turned start h cmd refused fault now later o =
      let answer = route out h.session cmd now later in
      let sent = write_events answer.1.events fault in
      let routed : Handling = record h { session = answer.0; written = h.written ++ sent.0 } in
      let open_still : Open start routed =
        ((route-SameLife out cmd now later h.session).0 ∙ o.0, o.1) in
      let ends =
        after_route-Turned start routed answer.1.close open_still
          (route-Closes out cmd now later h.session).1 in
      if_intro (Turned start)
        (is_webrtc h.session.call_type && (has_track && is_candidate cmd.command))
        (λ e. after_candidates-Turned start h refused later o)
        (λ e.
          unless_fault-Turned start routed sent.1 (after_route routed answer.1.close) open_still
            ends)

  decoded-Turned :
      (start : CloseInfo) (h : Handling) (cmd : Fallible CommandEnvelope) (refused : Option Text)
      (fault : WriteFault) (now later : ℤ)
      → Open start h
      → Turned start (decoded out decode has_track h cmd refused fault now later)
  decoded-Turned start h (failure e) refused fault now later o = refuse-Turned start h e later o
  decoded-Turned start h (ok cmd) refused fault now later o =
      obey-Turned start h cmd refused fault now later o

  turn-Turned :
      (start : CloseInfo) (h : Handling) (message : Incoming)
      → Open start h
      → Turned start (turn out decode has_track h message)
  unfolding turn
  turn-Turned start h read_error o = ((λ e. cc), inl o)
  turn-Turned start h (binary_message events fault) o =
      let sent = write_events events fault in
      let heard : Handling = record h { written = h.written ++ sent.0 } in
      if_intro (Turned start) (is_webrtc h.session.call_type) (λ e. stays-Turned start h o)
        (λ e. unless_fault-Turned start heard sent.1 (heard, true) o (stays-Turned start heard o))
  turn-Turned start h (text_message raw refused fault now later) o =
      decoded-Turned start h (decode raw) refused fault now later o
  turn-Turned start h other_message o = stays-Turned start h o

  loop_from-Agrees :
      (start : CloseInfo) (h : Handling) (messages : List Incoming)
      → Open start h
      → Agrees start (loop out decode has_track h messages)
  unfolding loop
  loop_from-Agrees start h [] o = inl o
  loop_from-Agrees start h (message ∷ messages) o =
      let t = turn-Turned start h message o in
      if_intro (Agrees start) (turn out decode has_track h message).1
        (λ e. loop_from-Agrees start (turn out decode has_track h message).0 messages (t.0 e))
        (λ e. t.1)

  -- However a call goes, the handler and its session agree at the end of the loop: either nobody asked for
  -- the end, and the handler still has the close info that it started with, or the session was asked to
  -- close with the close info of the handler, which the call record takes.
  pub loop-Agrees :
      (h : Handling) (messages : List Incoming)
      → h.session.close_requested ≡ false
      → Agrees h.close_info (loop out decode has_track h messages)
  loop-Agrees h messages o = loop_from-Agrees h.close_info h messages (o, refl)
