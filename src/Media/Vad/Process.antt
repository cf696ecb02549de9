-- ===== src/Media/Vad/Process.antt =====
-- processor/vad.go: `Process`, what one packet does to the voice detector.
use gopbx.Prelude.{
  List, [], ◌∷◌, ◌++◌, ℕ, ◌+◌, Bool, true, false, not, [], ltb, ◌==◌, if◌then◌else◌, is_empty,
}
use gopbx.Media.Floats.{Floats}
use gopbx.Media.Packet.{PacketKind, Packet, Result, audio, resolved_kind, empty_result, passthrough}
use gopbx.Media.Buffer
use gopbx.Media.Buffer.{BufferedAudio, empty_buffer}
use gopbx.Media.Window
use gopbx.Media.Window.{ActivityWindow, empty_window}
use gopbx.Media.Vad.State.{
  VadState, idle, candidate_start, talking, candidate_end, Vad, Outside, pcm_duration_ms,
  rms_pcm16le, enter_hit, keep_hit, observe_noise, observe_unless,
}
use gopbx.Media.Vad.Segment.{
  maybe_force_segment_end, maybe_confirm_start, is_quiet, should_resume_speaking, resume,
  confirm_end,
}

abbrev pub is_audio : PacketKind → Bool
is_audio audio = true
is_audio _ = false

module _ (fl : Floats) where
  open fl use {Float64, Float32, of_int, decimal, add, mul, quotient, sqrt, maximum, le, lt32, le32}

  unfoldable pub process_idle : Vad fl → Outside fl → Packet → ℕ → Float64 → Vad fl × Result
  process_idle v o p d rms =
      let quiet = observe_noise fl v rms in
      if enter_hit fl v rms
      then maybe_confirm_start fl
          (record v {
            state = candidate_start;
            start_buffer = Buffer.push empty_buffer p.payload d v.start_window_ms;
            start_activity = Window.push empty_window true d v.start_window_ms;
          })
          o p.track_id
      else (
        record quiet { pre_roll = Buffer.push quiet.pre_roll p.payload d quiet.pre_roll_ms },
        empty_result,
      )

  unfoldable pub process_candidate_start :
      Vad fl → Outside fl → Packet → ℕ → Float64 → Vad fl × Result
  process_candidate_start v o p d rms =
      let active = enter_hit fl v rms in
      let w = observe_unless fl active v rms in
      maybe_confirm_start fl
        (record w {
          start_buffer = Buffer.push w.start_buffer p.payload d w.start_window_ms;
          start_activity = Window.push w.start_activity active d w.start_window_ms;
        })
        o p.track_id

  -- The first lines of the two handlers within a segment.
  unfoldable pub listen : Vad fl → ℕ → Float64 → Vad fl
  listen v d rms =
      let active = keep_hit fl v rms in
      let w = observe_unless fl active v rms in
      record w { speech_activity = Window.push w.speech_activity active d w.end_window_ms }

  unfoldable pub process_speaking : Vad fl → Outside fl → Packet → ℕ → Float64 → Vad fl × Result
  process_speaking v o p d rms =
      let w = listen v d rms in
      if is_quiet fl w
      then (
        record w { state = candidate_end; tail_buffer = Buffer.push empty_buffer p.payload d 0 },
        empty_result,
      )
      else maybe_force_segment_end fl (record w { segment_duration_ms = w.segment_duration_ms + d })
          o.now p.track_id (passthrough p)

  unfoldable pub process_candidate_end :
      Vad fl → Outside fl → Packet → ℕ → Float64 → Vad fl × Result
  process_candidate_end v o p d rms =
      let l = listen v d rms in
      let w = record l { tail_buffer = Buffer.push l.tail_buffer p.payload d 0 } in
      if should_resume_speaking fl w
      then maybe_force_segment_end fl (resume fl w) o.now p.track_id
          (record { packets = Buffer.packets w.tail_buffer p.track_id; events = [] })
      else if ltb w.tail_buffer.total_ms w.silence_padding_ms
      then (w, empty_result)
      else if is_quiet fl w
      then confirm_end fl w o p.track_id
      else (w, empty_result)

  -- The switch over the state.
  unfoldable pub dispatch : VadState → Vad fl → Outside fl → Packet → ℕ → Float64 → Vad fl × Result
  dispatch idle = process_idle
  dispatch candidate_start = process_candidate_start
  dispatch talking = process_speaking
  dispatch candidate_end = process_candidate_end

  -- `Process`
  unfoldable pub process : Vad fl → Outside fl → Packet → Vad fl × Result
  process v o packet =
      let p = record packet { kind = resolved_kind packet } in
      let d = pcm_duration_ms p.payload v.sample_rate in
      if not (is_audio p.kind)
      then (v, passthrough p)
      else if is_empty p.payload
      then (v, empty_result)
      else if v.bypass
      then (v, passthrough p)
      else if d == 0
      then (v, empty_result)
      else dispatch v.state v o p d (rms_pcm16le fl p.payload)

  -- A run over packets, each with what the detector reads from outside at that time, and all that it
  -- passes on.
  unfoldable pub run : Vad fl → List (Outside fl × Packet) → Vad fl × Result
  run v [] = (v, empty_result)
  run v ((o, p) ∷ rest) =
      let (v', r) = process v o p in
      let (w, later) = run v' rest in
      (w, record { packets = r.packets ++ later.packets; events = r.events ++ later.events })
