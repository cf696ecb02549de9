-- ===== src/Call/Audio.antt =====
-- call_handler.go: `buildAudioStream`, the line of processors that the audio of a call goes through, and
-- track/websocket_track.go, which pushes the audio of a WebSocket into it. What the processors get from
-- outside while a packet passes is an input.
use gopbx.Prelude.{
  ℕ, ◌+◌, ℤ, Bool, false, List, [], ◌∷◌, ◌++◌, Option, none, some, Text, codes, Fallible, ok,
  failure, if◌then◌else◌,
}
use gopbx.Protocol.Event.{EventEnvelope}
use gopbx.Protocol.Command.{CallOption, VadOption}
use gopbx.Media.Floats.{Floats}
use gopbx.Media.Packet.{Packet, Result}
use gopbx.Media.Vad.State.{Vad, Outside}
use gopbx.Media.Vad.Process.{process}
use gopbx.Media.Vad.New.{new_vad}
use gopbx.Media.Asr.{Asr, new_asr, Answers, Action, asr_process, asr_close}
use gopbx.Media.Chain.{
  Processor, Stream, recorder_process, denoise_process, stream_push, stream_close,
}
use gopbx.Provider.Asr.{resolve_provider}
use gopbx.Provider.Tts.{provider_name}
use gopbx.Provider.VadScorer.{Environment, Scorer, no_scorer, is_segmented, new_scorer}

-- The name of the recognition provider that the options ask for.
abbrev asr_provider : Option CallOption → Text
asr_provider none = []
asr_provider (some o) = elim o.asr [
  | none ↦ []
  | some c ↦ elim c.provider [ none ↦ [] | some name ↦ name ]
]

-- Whether there is a scorer; `builds` is whether it can be built.
abbrev pub has_scorer : (Scorer → Bool) → Fallible Scorer → Bool
has_scorer builds (ok no_scorer) = false
has_scorer builds (ok scorer) = builds scorer
has_scorer builds (failure e) = false

module _ (fl : Floats) where
  -- The state of all processors of a line, with what was asked of the recognition provider so far, and how
  -- often the scorer was closed.
  pub record AudioLine : Type 0 where
    pub recorded : ℕ
    pub vad : Vad fl
    pub asr : Asr
    pub actions : List Action
    pub scorer_closes : ℕ

  -- What the processors get from outside: the time and the scorer, how the provider answers, and, where the
  -- scorer has a `Close`, its error.
  pub record Surroundings : Type 0 where
    pub outside : Outside fl
    pub answers : Packet → Answers
    pub at_close : Answers
    pub scorer_close : Option (Option Text)
    pub now : ℤ

  abbrev pub record_packet : Packet → AudioLine → AudioLine × Result
  record_packet p s =
      let (n, result) = recorder_process p s.recorded in (record s { recorded = n }, result)

  abbrev pub detect : Surroundings → Packet → AudioLine → AudioLine × Result
  detect w p s = let (v, result) = process fl s.vad w.outside p in (record s { vad = v }, result)

  abbrev pub recognize : Surroundings → Packet → AudioLine → AudioLine × Result
  recognize w p s =
      let (a, result, actions) = asr_process s.asr p (w.answers p) w.now in
      (record s { asr = a; actions = s.actions ++ actions }, result)

  -- `Close` of the detector, which closes its scorer.
  abbrev pub close_detector : Surroundings → AudioLine → AudioLine × Option Text
  close_detector w s =
      if s.vad.has_scorer
      then elim w.scorer_close [
        | none ↦ (s, none)
        | some err ↦ (record s { scorer_closes = s.scorer_closes + 1 }, err)
      ]
      else (s, none)

  -- And of the recognizer.
  abbrev pub close_recognizer : Surroundings → AudioLine → AudioLine × Option Text
  close_recognizer w s =
      let (a, err, actions) = asr_close s.asr w.at_close in
      (record s { asr = a; actions = s.actions ++ actions }, err)

  -- The processors, in their order.
  abbrev pub line_processors : Surroundings → List (Processor AudioLine)
  line_processors w =
      record { name = codes "denoise"; process = λ p s. (s, denoise_process p); close = none }
      ∷ record { name = codes "recorder"; process = record_packet; close = none }
      ∷ record { name = codes "vad"; process = detect w; close = some (close_detector w) }
      ∷ record { name = codes "asr"; process = recognize w; close = some (close_recognizer w) }
      ∷ []

  -- The line that `buildAudioStream` builds for a call.
  unfoldable pub new_line :
      Environment
      → (Scorer → Bool)
      → Text
      → Option CallOption
      → Option (VadOption fl.Float32)
      → AudioLine
  unfolding new_vad new_asr resolve_provider provider_name is_segmented new_scorer
  new_line env builds id option vad = record {
    recorded = 0;
    vad = new_vad fl vad (has_scorer builds (new_scorer env fl vad));
    asr =
        new_asr id (provider_name (resolve_provider (asr_provider option)))
          (is_segmented env fl vad);
    actions = [];
    scorer_closes = 0;
  }

  -- The stream of the call.
  abbrev pub stream_of : Text → Surroundings → Stream AudioLine
  stream_of id w = record { id = id; chain = some (line_processors w); closed = false }

  -- `HandleBinary` of the WebSocket track: a payload is pushed into the stream of the call.
  unfoldable pub handle_binary :
      Text → Surroundings → AudioLine → List ℕ → AudioLine × List EventEnvelope
  unfolding stream_push
  handle_binary id w s payload = stream_push (stream_of id w) id payload s

  -- `Close` of the stream, at the end of a call.
  unfoldable pub close_line : Text → Surroundings → AudioLine → AudioLine
  unfolding stream_close asr_close
  close_line id w s = (stream_close (stream_of id w) s).1

  -- A run over payloads.
  unfoldable pub run_line : Text → AudioLine → List (Surroundings × List ℕ) → AudioLine
  unfolding handle_binary
  run_line id s [] = s
  run_line id s ((w, payload) ∷ rest) = run_line id (handle_binary id w s payload).0 rest
