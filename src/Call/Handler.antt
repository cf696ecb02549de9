-- ===== src/Call/Handler.antt =====
-- call_handler.go: the command loop of `serveWS` and what it defers, from the moment on that the session
-- is active. One handler runs alone here: what others do meanwhile is in Call/Talk.
use gopbx.Prelude.{
  ℕ, ℤ, Bool, true, false, ◌&&◌, List, [], ◌∷◌, ◌++◌, Option, none, some, Text, codes,
  if◌then◌else◌, Fallible, ok, failure,
}
use gopbx.Protocol.Event.{EventEnvelope, new_error_event}
use gopbx.Protocol.Command.{CommandEnvelope, CommandName, candidate}
use gopbx.Protocol.Writer.{WriteFault, write_events}
use gopbx.Session.State.{CallType, webrtc, Session, CloseInfo, error, fail, request_close, finalize}
use gopbx.Session.Router.{Outside, route}

-- What `ReadMessage` returns. A binary message stands with the events that the audio track answers it
-- with, a text message with the outcome of `AddCandidates`, should it be called.
pub data Incoming : Type 0 where
  read_error : Incoming
  binary_message : List EventEnvelope → WriteFault → Incoming
  text_message : Text → Option Text → WriteFault → ℤ → ℤ → Incoming
  other_message : Incoming

-- `written` are the events sent so far, with those of `WriteError`, whose own failure the code ignores.
pub record Handling : Type 0 where
  pub session : Session
  pub close_info : CloseInfo
  pub written : List EventEnvelope

-- The three lines that every error of the loop runs.
unfoldable pub break_off : Handling → Text → Handling
unfolding fail
break_off h err = record h {
  session = (fail h.session err).0;
  close_info = record { cause = error; reason = []; initiator = []; err = err };
}

-- Break off where there is an error, else go on as told.
abbrev pub unless_fault : Handling → Option Text → Handling × Bool → Handling × Bool
unless_fault h (some err) next = (break_off h err, false)
unless_fault h none next = next

-- `WriteError`, then the three lines.
unfoldable pub refuse : Handling → Text → ℤ → Handling × Bool
unfolding break_off new_error_event
refuse h err later =
    let told = record h {
      written = h.written ++ new_error_event h.session.id (codes "handle_call") err later ∷ [];
    } in
    (break_off told err, false)

-- What follows `AddCandidates`.
abbrev pub after_candidates : Handling → Option Text → ℤ → Handling × Bool
after_candidates h none later = (h, true)
after_candidates h (some err) later = refuse h err later

-- The last part of the loop's body.
abbrev pub after_route : Handling → Option CloseInfo → Handling × Bool
after_route h none = (h, true)
after_route h (some info) =
    (record h { session = (request_close h.session info).0; close_info = info }, false)

abbrev pub is_webrtc : CallType → Bool
is_webrtc webrtc = true
is_webrtc _ = false

abbrev pub is_candidate : CommandName → Bool
is_candidate candidate = true
is_candidate _ = false

-- `DecodeCommand` is JSON decoding, `has_track` whether there is a WebRTC track.
module _ (out : Outside) (decode : Text → Fallible CommandEnvelope) (has_track : Bool) where
  unfoldable pub obey :
      Handling → CommandEnvelope → Option Text → WriteFault → ℤ → ℤ → Handling × Bool
  unfolding route write_events request_close break_off refuse
  obey h cmd refused fault now later =
      let (s, result) = route out h.session cmd now later in
      let (events, err) = write_events result.events fault in
      let routed = record h { session = s; written = h.written ++ events } in
      if is_webrtc h.session.call_type && (has_track && is_candidate cmd.command)
      then after_candidates h refused later
      else unless_fault routed err (after_route routed result.close)

  abbrev pub decoded :
      Handling → Fallible CommandEnvelope → Option Text → WriteFault → ℤ → ℤ → Handling × Bool
  decoded h (failure e) refused fault now later = refuse h e later
  decoded h (ok cmd) refused fault now later = obey h cmd refused fault now later

  -- One turn of the loop, with whether it goes on.
  unfoldable pub turn : Handling → Incoming → Handling × Bool
  unfolding obey write_events break_off
  turn h read_error = (h, false)
  turn h (binary_message events fault) =
      let (sent, err) = write_events events fault in
      let heard = record h { written = h.written ++ sent } in
      if is_webrtc h.session.call_type then (h, true) else unless_fault heard err (heard, true)
  turn h (text_message raw refused fault now later) = decoded h (decode raw) refused fault now later
  turn h other_message = (h, true)

  -- The loop over what is read; where the input ends the connection is gone.
  unfoldable pub loop : Handling → List Incoming → Handling
  unfolding turn
  loop h [] = h
  loop h (message ∷ messages) =
      let (next, goes_on) = turn h message in
      let rest = loop next messages in if goes_on then rest else next

  -- The deferred `Cleanup`, at the time `now`.
  unfoldable pub serve : Handling → List Incoming → ℕ → Session × CloseInfo
  unfolding loop finalize
  serve h messages now =
      let end = loop h messages in
      let (closed, info, _) = finalize end.session end.close_info now in (closed, info)
