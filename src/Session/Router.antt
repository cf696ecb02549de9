-- ===== src/Session/Router.antt =====
-- command_router.go: what a command does to a session, and which events answer it.
use gopbx.Prelude.{
  ℕ, ◌+◌, ℤ, List, [], ◌∷◌, ◌++◌, Option, none, some, Text, codes, is_empty, if◌then◌else◌, length,
  Fallible, ok, failure,
}
use gopbx.Protocol.Event.{
  EventEnvelope, Datum, text, number, envelope, new_error_event, track_start, track_end, metrics,
  add_history, interruption, hangup,
}
use gopbx.Protocol.Command.{
  CommandName, CommandEnvelope, SynthesisOption, CallOption, tts, play, history, interrupt,
  deref_text, deref_bool,
}
use gopbx.Provider.Tts.{
  Provider, aliyun, mock, Stream, resolve_provider, provider_name, metric_key, mock_synthesis,
}
use gopbx.Media.Track.{
  new_tts_track, tts_track_id, tts_metrics_data, new_file_track, file_track_id, file_metrics_data,
}
use gopbx.Session.State.{Session, CloseInfo, append_command}
use gopbx.Session.Track.{start_track, clear_track}

pub record CommandResult : Type 0 where
  pub events : List EventEnvelope
  pub close : Option CloseInfo

-- What a synthesis reports: bytes, chunks, and the text of an error.
pub record Synthesis : Type 0 where
  pub audio_bytes : ℕ
  pub chunk_count : ℕ
  pub err : Option Text

-- The code outside: `json.Unmarshal` of a synthesis option (none where it fails), the Aliyun client's
-- `StartSynthesis`, and the bound sink's `PlayTTS`.
pub record Outside : Type 0 where
  pub unmarshal : Text → Option SynthesisOption
  pub start_aliyun : Text → Option SynthesisOption → Fallible Stream
  pub play_tts : Text → Option SynthesisOption → Stream → Synthesis

-- `autoHangupClose`
unfoldable pub auto_hangup_close : CommandEnvelope → Option CloseInfo
unfolding deref_bool
auto_hangup_close cmd =
    if deref_bool cmd.auto_hangup
    then some (record {
      cause = gopbx.Session.State.hangup;
      reason = codes "autohangup";
      initiator = codes "system";
      err = [];
    })
    else none

unfoldable pub hangup_event : ℤ → CloseInfo → EventEnvelope
hangup_event now info = record (envelope hangup now) {
  reason = info.reason;
  initiator = info.initiator;
}

-- `append(events, hangupEvent(...))` where the close info is not nil.
abbrev pub close_after : ℤ → List EventEnvelope → Option CloseInfo → CommandResult
close_after now events close = record {
  events = elim close [ none ↦ events | some info ↦ events ++ hangup_event now info ∷ [] ];
  close = close;
}

abbrev pub started : ℤ → Text → EventEnvelope
started now track = record (envelope track_start now) { track_id = track }

abbrev pub ended : ℤ → Text → EventEnvelope
ended now track = record (envelope track_end now) { track_id = track; duration = some 0 }

abbrev pub measured : ℤ → Text → List (Text × Datum) → EventEnvelope
measured now key details = record (envelope metrics now) {
  key = key;
  duration = some 0;
  details = details;
}

-- The first of two that is not nil.
abbrev pub first_of {ℓ} : {A : Type ℓ} → Option A → Option A → Option A
first_of none b = b
first_of (some a) b = some a

-- The loop of `synthesizeTTS`, with the counts so far.
unfoldable pub receive : ℕ → ℕ → List (List ℕ) → ℕ × ℕ
receive audio_bytes chunk_count [] = (audio_bytes, chunk_count)
receive audio_bytes chunk_count (chunk ∷ chunks) =
    receive (audio_bytes + length chunk) (if is_empty chunk then chunk_count else chunk_count + 1)
      chunks

-- The error of the deferred `Close` counts where there is no other.
unfoldable pub drain : Stream → Synthesis
unfolding receive
drain stream =
    let (audio_bytes, chunk_count) = receive 0 0 stream.chunks in
    record {
      audio_bytes = audio_bytes;
      chunk_count = chunk_count;
      err = elim stream.recv_error [ none ↦ stream.close_error | some e ↦ some e ];
    }

-- The session's own synthesis option.
abbrev pub session_tts : Session → Option SynthesisOption
session_tts s = elim s.option [ none ↦ none | some o ↦ o.tts ]

abbrev pub provider_of : Option SynthesisOption → Option Text
provider_of option = elim option [ none ↦ none | some o ↦ o.provider ]

-- The events of a synthesis that went well, before the hangup.
unfoldable pub tts_events :
    ℤ → CommandEnvelope → Provider → Text → List (Text × Datum) → Synthesis → List EventEnvelope
unfolding metric_key provider_name
tts_events now cmd provider track details result =
    started now track
    ∷ measured now (metric_key provider (codes "ttfb")) (
        details
        ++ (codes "audioBytes", number result.audio_bytes)
          ∷ (codes "chunks", number result.chunk_count)
          ∷ (codes "provider", text (provider_name provider))
          ∷ [])
    ∷ measured now (metric_key provider (codes "completed")) (
        (codes "trackId", text track)
        ∷ (codes "length", number (length cmd.message))
        ∷ (codes "audioBytes", number result.audio_bytes)
        ∷ (codes "chunks", number result.chunk_count)
        ∷ (codes "provider", text (provider_name provider))
        ∷ [])
    ∷ ended now track
    ∷ []

-- What the case `tts` returns, by the synthesis' error; `later` is the time at which the error event is
-- made.
unfoldable pub answer_tts :
    ℤ
    → ℤ
    → CommandEnvelope
    → Provider
    → Text
    → List (Text × Datum)
    → Synthesis
    → Option Text
    → CommandResult
unfolding tts_events auto_hangup_close
answer_tts now later cmd provider track details result (some e) = record {
  events = started now track ∷ new_error_event track (codes "tts") e later ∷ ended now track ∷ [];
  close = none;
}
answer_tts now later cmd provider track details result none =
    close_after now (tts_events now cmd provider track details result) (auto_hangup_close cmd)

-- The events of `play`, before the hangup.
unfoldable pub play_events : ℤ → Text → List (Text × Datum) → List EventEnvelope
play_events now track details =
    started now track ∷ measured now (codes "completed.play.mock") details ∷ ended now track ∷ []

-- The case `play`.
unfoldable pub route_play : Session → CommandEnvelope → ℤ → Session × CommandResult
unfolding start_track clear_track new_file_track file_track_id file_metrics_data play_events
    auto_hangup_close deref_text
route_play s cmd now =
    let (s1, id) = start_track s (codes "play") cmd.play_id in
    let track = new_file_track id (deref_text cmd.url) cmd.play_id in
    (
      (clear_track s1).0,
      close_after now (play_events now (file_track_id track) (file_metrics_data track))
          (auto_hangup_close cmd),
    )

-- The case `history`.
unfoldable pub route_history : Session → CommandEnvelope → ℤ → CommandResult
unfolding deref_text
route_history s cmd now = record {
  events =
      record (envelope add_history now) {
        sender = s.id;
        speaker = deref_text cmd.speaker;
        message = cmd.message;
      }
      ∷ [];
  close = none;
}

-- The case `interrupt`.
unfoldable pub route_interrupt : Session → ℤ → Session × CommandResult
unfolding clear_track
route_interrupt s now =
    let (s1, track) = clear_track s in
    (
      s1,
      record {
        events =
            record (envelope interruption now) {
              track_id = if is_empty track then s1.id else track;
              position = some 0;
            }
            ∷ [];
        close = none;
      },
    )

-- The case `hangup`.
unfoldable pub route_hangup : CommandEnvelope → ℤ → CommandResult
unfolding deref_text
route_hangup cmd now = record {
  events =
      record (envelope hangup now) {
        reason = deref_text cmd.reason;
        initiator = deref_text cmd.initiator;
      }
      ∷ [];
  close = some (record {
    cause = gopbx.Session.State.hangup;
    reason = deref_text cmd.reason;
    initiator = deref_text cmd.initiator;
    err = [];
  });
}

module _ (out : Outside) where
  -- `CommandEnvelope.TTSOption`, where it returns an option and no error.
  unfoldable pub tts_option : CommandEnvelope → Option SynthesisOption
  tts_option cmd = if is_empty cmd.option then none else out.unmarshal cmd.option

  unfoldable pub resolve_tts_provider : Session → CommandEnvelope → Provider
  unfolding resolve_provider tts_option
  resolve_tts_provider s cmd =
      let named = first_of (provider_of (tts_option cmd)) (provider_of (session_tts s)) in
      resolve_provider (elim named [ none ↦ codes "" | some name ↦ name ])

  unfoldable pub resolve_tts_option : Session → CommandEnvelope → Option SynthesisOption
  unfolding tts_option
  resolve_tts_option s cmd = first_of (tts_option cmd) (session_tts s)

  unfoldable pub start_synthesis : Provider → Text → Option SynthesisOption → Fallible Stream
  unfolding mock_synthesis
  start_synthesis aliyun message option = out.start_aliyun message option
  start_synthesis mock message option = ok (mock_synthesis message)

  unfoldable pub synthesize_tts :
      Session → Provider → Text → Text → Option SynthesisOption → Synthesis
  unfolding start_synthesis drain
  synthesize_tts s provider track message option = elim (start_synthesis provider message option) [
    | failure e ↦ record { audio_bytes = 0; chunk_count = 0; err = some e }
    | ok stream ↦ if s.tts_sink then out.play_tts track option stream else drain stream
  ]

  -- The case `tts`.
  unfoldable pub route_tts : Session → CommandEnvelope → ℤ → ℤ → Session × CommandResult
  unfolding start_track clear_track new_tts_track tts_track_id tts_metrics_data resolve_tts_provider
      resolve_tts_option synthesize_tts answer_tts deref_bool
  route_tts s cmd now later =
      let (s1, id) = start_track s (codes "tts") cmd.play_id in
      let track = new_tts_track id cmd.message cmd.speaker cmd.play_id in
      let provider = resolve_tts_provider s1 cmd in
      let result =
        synthesize_tts s1 provider (tts_track_id track) cmd.message (resolve_tts_option s1 cmd) in
      let details =
        tts_metrics_data track (deref_bool cmd.streaming) (deref_bool cmd.end_of_stream) in
      (
        (clear_track s1).0,
        answer_tts now later cmd provider (tts_track_id track) details result result.err,
      )

  -- The switch of `Route`; the commands that it answers with nothing are the others.
  unfoldable pub respond : CommandName → Session → CommandEnvelope → ℤ → ℤ → Session × CommandResult
  respond tts s cmd now later = route_tts s cmd now later
  respond play s cmd now later = route_play s cmd now
  respond history s cmd now later = (s, route_history s cmd now)
  respond interrupt s cmd now later = route_interrupt s now
  respond gopbx.Protocol.Command.hangup s cmd now later = (s, route_hangup cmd now)
  respond _ s cmd now later = (s, record { events = []; close = none })

  unfoldable pub route : Session → CommandEnvelope → ℤ → ℤ → Session × CommandResult
  unfolding append_command respond
  route s cmd now later = respond cmd.command (append_command s cmd.command) cmd now later
