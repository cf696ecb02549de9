-- ===== src/Call/Talk.antt =====
-- call_handler.go: a call with its audio, from the moment on that its session is active until it is over.
-- The handler's loop, the line of processors, and for a WebRTC call the goroutine that reads the remote
-- track (`consumeRemoteTrack`) take turns: a schedule says who gets what, in which order.
use gopbx.Prelude.{
  ℕ, ℤ, Bool, true, false, List, [], ◌∷◌, ◌++◌, Option, Text, if◌then◌else◌, Fallible,
}
use gopbx.Protocol.Event.{EventEnvelope}
use gopbx.Protocol.Command.{CommandEnvelope}
use gopbx.Protocol.Writer.{WriteFault}
use gopbx.Session.State.{CallType, fail, request_close}
use gopbx.Session.Manager.{request_kill}
use gopbx.Session.Router.{Outside}
use gopbx.Media.Floats.{Floats}
use gopbx.Media.WebRtc.{Rtp, Consumed, reading, ended, reported, consume_one}
use gopbx.Call.Handler.{
  Handling, Incoming, read_error, binary_message, text_message, other_message, is_webrtc, turn,
}
use gopbx.Call.Audio.{AudioLine, Surroundings, stream_of, handle_binary, close_line}

-- What a call has from its beginning: what the router and the decoder of commands stand on, whether it has a
-- WebRTC track, its type, its identifier, and the MIME type and the clock rate of the remote track.
pub record Setting : Type 0 where
  pub out : Outside
  pub decode : Text → Fallible CommandEnvelope
  pub has_track : Bool
  pub call_type : CallType
  pub id : Text
  pub mime : Text
  pub clock_rate : ℕ

module _ (fl : Floats) where
  -- What `ReadMessage` returns to the handler, or `ReadRTP` to the reader of the remote track; or that the
  -- session is killed by an administrator, which makes the next read of the handler fail.
  pub data Arrival : Type 0 where
    broken ignored : Arrival
    killed : Arrival
    binary : Surroundings fl → List ℕ → WriteFault → Arrival
    command : Text → Option Text → WriteFault → ℤ → ℤ → Arrival
    remote : Surroundings fl → Rtp → Arrival

  -- `listening` is whether the reader of the remote track still reads.
  pub record Talk : Type 0 where
    pub handling : Handling
    pub line : AudioLine fl
    pub listening : Bool

  module _ (c : Setting) where
    open c use {out, decode, has_track, call_type, id, mime, clock_rate}

    -- What the reader of the remote track did becomes part of the call: the events sent, and an error by
    -- `Fail`.
    abbrev pub noted : Talk → AudioLine fl × List EventEnvelope × Consumed → Talk
    noted t (line, sent, state) =
        let heard = record t.handling { written = t.handling.written ++ sent } in
        elim state [
          | reading ↦ record t { handling = heard; line = line }
          | ended ↦ record t { handling = heard; line = line; listening = false }
          | reported e ↦ record t {
            handling = record heard { session = (fail heard.session e).0 };
            line = line;
            listening = false;
          }
        ]

    unfoldable pub hear_remote : Talk → Surroundings fl → Rtp → Talk
    unfolding consume_one fail
    hear_remote t w r =
        if t.listening
        then noted t (consume_one (stream_of fl id w) id mime clock_rate r t.line)
        else t

    -- The handler's turn, on a talk whose line has heard the message already.
    abbrev pub handled : Talk → Incoming → Talk × Bool
    handled t message =
        let (h, goes_on) = turn out decode has_track t.handling message in
        (record t { handling = h }, goes_on)

    -- `HandleBinary` and the writing of its events.
    abbrev pub hear : Talk → AudioLine fl × List EventEnvelope → WriteFault → Talk × Bool
    hear t (line, events) fault = handled (record t { line = line }) (binary_message events fault)

    -- `Kill` on the session of the call.
    unfoldable pub kill : Talk → Talk
    unfolding request_close
    kill t = record t { handling = record t.handling { session = request_kill t.handling.session } }

    unfoldable pub talk_turn : Talk → Arrival → Talk × Bool
    unfolding turn handle_binary hear_remote kill
    talk_turn t broken = handled t read_error
    talk_turn t ignored = handled t other_message
    talk_turn t (binary w payload fault) =
        if is_webrtc call_type
        then (t, true)
        else hear t (handle_binary fl id w t.line payload) fault
    talk_turn t (command raw refused fault now later) =
        handled t (text_message raw refused fault now later)
    talk_turn t (remote w r) = (hear_remote t w r, true)
    talk_turn t killed = (kill t, true)

    -- The handler has left its loop; until the connection of the call is closed the remote track is read.
    unfoldable pub overhear : Talk → List Arrival → Talk
    unfolding hear_remote kill
    overhear t [] = t
    overhear t (killed ∷ messages) = overhear (kill t) messages
    overhear t (remote w r ∷ messages) = overhear (hear_remote t w r) messages
    overhear t (_ ∷ messages) = overhear t messages

    unfoldable pub talk : Talk → List Arrival → Talk
    unfolding talk_turn overhear
    talk t [] = t
    talk t (message ∷ messages) =
        let (next, goes_on) = talk_turn t message in
        let rest = talk next messages in if goes_on then rest else overhear next messages

    -- The deferred closing of the audio: the stream of a WebSocket track is closed; `Close` of a WebRTC track
    -- closes its peer connection, and does nothing to the stream.
    unfoldable pub hang_up : Surroundings fl → Talk → AudioLine fl
    unfolding close_line
    hang_up w t = if is_webrtc call_type then t.line else close_line fl id w t.line

    -- The audio of a call, from its messages to its end.
    unfoldable pub call_audio :
        Surroundings fl → Handling → AudioLine fl → List Arrival → AudioLine fl
    unfolding talk hang_up
    call_audio w h line messages =
        hang_up w
          (talk (record { handling = h; line = line; listening = is_webrtc call_type }) messages)
