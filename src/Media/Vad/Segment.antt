-- ===== src/Media/Vad/Segment.antt =====
-- processor/vad.go: how a speech segment is opened, resumed, closed and cut.
use gopbx.Prelude.{
  ℕ, ◌+◌, ℤ, pos, Bool, true, false, ◌&&◌, ◌||◌, List, [], ◌∷◌, ◌++◌, none, some, ltb, ◌==◌,
  if◌then◌else◌, Text, ltb_ℤ, ◌-ℤ◌,
}
use gopbx.Protocol.Event.{EventEnvelope, envelope, speaking, silence, eou}
use gopbx.Media.Floats.{Floats}
use gopbx.Media.Packet.{Packet, Result, segment_end, empty_result}
use gopbx.Media.Buffer
use gopbx.Media.Buffer.{BufferedAudio, empty_buffer}
use gopbx.Media.Window
use gopbx.Media.Window.{ActivityWindow, empty_window}
use gopbx.Media.Vad.State.{idle, talking, Vad, Outside, reset_to_idle}

abbrev pub segment_end_packet : Text → Packet
segment_end_packet track = record { track_id = track; payload = []; kind = segment_end }

-- `now - startDurationMs`, or now where that is negative.
unfoldable pub segment_start : ℤ → ℕ → ℤ
segment_start now duration =
    let start = now -ℤ pos duration in if ltb_ℤ start (pos 0) then now else start

module _ (fl : Floats) where
  open fl use {Float64, Float32, of_int, decimal, add, mul, quotient, sqrt, maximum, le, lt32, le32}

  -- `segmentStartMs`, or the time now where it is 0.
  unfoldable pub start_time_of : Vad fl → ℤ → ℤ
  start_time_of v now = elim v.segment_start_ms [
    | pos n ↦ if n == 0 then now else pos n
    | other ↦ other
  ]

  -- The events `silence` and `eou` at the end of a segment.
  unfoldable pub end_events : Vad fl → Text → ℤ → List EventEnvelope
  end_events v track now =
      record (envelope silence now) { track_id = track }
      ∷ record (envelope eou now) {
        track_id = track;
        start_time = some (start_time_of v now);
        end_time = some now;
      }
      ∷ []

  unfoldable pub maybe_force_segment_end : Vad fl → ℤ → Text → Result → Vad fl × Result
  maybe_force_segment_end v now track result =
      if v.max_segment_ms == 0 || ltb v.segment_duration_ms v.max_segment_ms then (v, result) else (
        reset_to_idle fl v,
        record {
          packets = result.packets ++ segment_end_packet track ∷ [];
          events = result.events ++ end_events v track now;
        },
      )

  -- The start of a segment is refused: its frames go to the pre-roll.
  unfoldable pub reject_start : Vad fl → Vad fl
  reject_start v = record v {
    state = idle;
    pre_roll = Buffer.append v.pre_roll v.start_buffer v.pre_roll_ms;
    start_buffer = empty_buffer;
    start_activity = empty_window;
  }

  -- The scorer's word on the start; an error of the scorer accepts.
  unfoldable pub accepts_start : Vad fl → Outside fl → Bool
  accepts_start v o =
      if v.hybrid && v.has_scorer
      then elim (o.score (Buffer.bytes v.pre_roll ++ Buffer.bytes v.start_buffer) v.sample_rate) [
        | none ↦ true
        | some s ↦ le32 v.silero_start_threshold s
      ]
      else true

  -- The last part of `maybeConfirmStartLocked`: the segment begins.
  unfoldable pub confirm_start : Vad fl → Outside fl → Text → Vad fl × Result
  confirm_start v o track = (
    record v {
      segment_start_ms = segment_start o.now v.start_buffer.total_ms;
      segment_duration_ms = v.start_buffer.total_ms;
      state = talking;
      speech_activity = v.start_activity;
      pre_roll = empty_buffer;
      start_buffer = empty_buffer;
      start_activity = empty_window;
    },
    record {
      packets = Buffer.packets v.pre_roll track ++ Buffer.packets v.start_buffer track;
      events = record (envelope speaking o.now) { track_id = track } ∷ [];
    },
  )

  unfoldable pub maybe_confirm_start : Vad fl → Outside fl → Text → Vad fl × Result
  maybe_confirm_start v o track =
      if ltb v.start_buffer.total_ms v.start_window_ms
        || ltb v.start_activity.total_ms v.start_window_ms
      then (v, empty_result)
      else if fl.lt (Window.ratio fl v.start_activity) v.start_activity_ratio
      then ((if v.start_activity.active_ms == 0 then reject_start v else v), empty_result)
      else if accepts_start v o
      then confirm_start v o track
      else (reject_start v, empty_result)

  -- `shouldEnterCandidateEndLocked` and `shouldConfirmEndLocked`, which are the same test.
  unfoldable pub is_quiet : Vad fl → Bool
  is_quiet v =
      if ltb v.speech_activity.total_ms v.end_window_ms
      then false
      else le (Window.ratio fl v.speech_activity) v.end_activity_ratio

  unfoldable pub should_resume_speaking : Vad fl → Bool
  should_resume_speaking v =
      if ltb v.speech_activity.total_ms v.end_window_ms
      then false
      else le v.resume_activity_ratio (Window.ratio fl v.speech_activity)

  -- The scorer's word on the end; an error of the scorer confirms.
  unfoldable pub confirms_end : Vad fl → Outside fl → Bool
  confirms_end v o =
      if v.hybrid && v.has_scorer
      then elim (o.score (Buffer.bytes v.tail_buffer) v.sample_rate) [
        | none ↦ true
        | some s ↦ lt32 s v.silero_end_threshold
      ]
      else true

  -- Speech goes on: the held-back tail is part of the segment.
  unfoldable pub resume : Vad fl → Vad fl
  resume v = record v {
    state = talking;
    segment_duration_ms = v.segment_duration_ms + v.tail_buffer.total_ms;
    tail_buffer = empty_buffer;
  }

  unfoldable pub confirm_end : Vad fl → Outside fl → Text → Vad fl × Result
  confirm_end v o track =
      if confirms_end v o
      then (
        reset_to_idle fl v,
        record {
          packets =
              Buffer.prefix_packets v.tail_buffer track v.tail_padding_ms
              ++ segment_end_packet track ∷ [];
          events = end_events v track o.now;
        },
      )
      else (resume v, record { packets = Buffer.packets v.tail_buffer track; events = [] })
