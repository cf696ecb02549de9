-- ===== src/Tests/Media.antt =====
-- The voice detector over fixed-point numbers, at concrete inputs.
use mathlib.Core.List.{Sublist}
use gopbx.Prelude.{
  ℕ, ◌+◌, ◌*◌, ◌/◌, ◌^◌, ◌≡◌, refl, pos, pos_part, neg_part, true, false, List, [], ◌∷◌, ◌++◌,
  Option, none, some, leb, ltb, codes, arith, max, replicate,
}
use gopbx.Protocol.Command.{VadOption}
use gopbx.Media.Floats.{Floats}
use gopbx.Media.Packet.{Packet, audio, resolved_kind, empty_result, passthrough}
use gopbx.Media.Buffer
use gopbx.Media.Buffer.{BufferedAudio, empty_buffer}
use gopbx.Codec.Pcm.{pcm_bytes_to_samples}
use gopbx.Media.Window
use gopbx.Protocol.Event.{speaking}
use gopbx.Media.Vad.Segment.{
  maybe_confirm_start, confirm_start, accepts_start, reject_start, is_quiet,
  maybe_force_segment_end,
}
use gopbx.Media.Vad.State.{
  enter_hit, keep_hit, noise_threshold, observe_unless, observe_noise, rms_pcm16le, sum_squares,
  Vad, Outside, pcm_duration_ms,
}
use gopbx.Media.Vad.Process.{
  process, run, dispatch, process_idle, process_candidate_start, process_speaking, listen,
}
use gopbx.Media.Vad.New.{new_vad}
use gopbx.Media.Vad.Events.{names, well_bracketed, run-well_bracketed}
use gopbx.Media.Vad.Conservation.{audio_of, pending}
use gopbx.Media.Vad.Audio.{run_ordered, payloads}
use gopbx.Media.Vad.SegmentLaws.{segment_lossless}
use gopbx.Media.Vad.FrameSize.{run_deaf}

-- Thousandths, never negative: enough to run the detector on loud and on silent frames.
abbrev pub fixed : Floats
fixed = record {
  Float64 = ℕ;
  Float32 = ℕ;
  of_int = λ z. 1000 * (pos_part z + neg_part z);
  decimal = λ n k. 1000 * n / 10 ^ k;
  decimal32 = λ n k. 1000 * n / 10 ^ k;
  widen = λ x. x;
  add = λ x y. x + y;
  mul = λ x y. x * y / 1000;
  quotient = λ x y. 1000 * x / y;
  sqrt = λ x. x;
  maximum = max;
  le = leb;
  lt = ltb;
  le32 = leb;
  lt32 = ltb;
}

abbrev pub energy : Option (VadOption ℕ)
energy = some (record {
  kind = some (codes "energy");
  samplerate = some 1000;
  speech_padding = none;
  silence_padding = none;
  ratio = none;
  voice_threshold = none;
  max_buffer_duration_secs = none;
  endpoint = none;
})

abbrev outside : Outside fixed
outside = record { now = pos 5000; score = λ bytes rate. none }

-- A loud frame of `n` milliseconds at 1000 samples a second.
abbrev loud : ℕ → Packet
loud n = record { track_id = codes "t"; payload = replicate (2 * n) 100; kind = audio }

abbrev heard : ℕ → Outside fixed × Packet
heard n = (outside, loud n)

abbrev detector : Vad fixed
detector = new_vad fixed energy false

-- Three loud frames of 20 ms open a segment.
three_frames_open :
    names (run fixed detector (heard 20 ∷ heard 20 ∷ heard 20 ∷ [])).1.events ≡ speaking ∷ []
unfolding run process dispatch process_idle process_candidate_start process_speaking listen
    maybe_confirm_start confirm_start accepts_start reject_start is_quiet maybe_force_segment_end
    enter_hit keep_hit noise_threshold observe_unless observe_noise rms_pcm16le sum_squares
    pcm_bytes_to_samples pcm_duration_ms resolved_kind passthrough Buffer.push Buffer.evict
    Buffer.packets Buffer.append Window.push Window.evict Window.ratio new_vad
three_frames_open = refl

run-well_bracketed_example :
    well_bracketed false (names (run fixed detector (heard 20 ∷ heard 20 ∷ [])).1.events) ≡ true
run-well_bracketed_example = run-well_bracketed fixed energy false (heard 20 ∷ heard 20 ∷ [])

run_ordered_example :
    Sublist
      (audio_of (run fixed detector (heard 20 ∷ heard 20 ∷ [])).1.packets)
      (payloads fixed (heard 20 ∷ heard 20 ∷ []))
unfolding new_vad resolved_kind
run_ordered_example =
    run_ordered fixed energy false (heard 20 ∷ heard 20 ∷ []) refl (refl, (refl, tt))

-- The frames that open a segment.
abbrev opening : List (Outside fixed × Packet)
opening = heard 20 ∷ heard 20 ∷ heard 20 ∷ []

abbrev mid_segment : Vad fixed
mid_segment = (run fixed detector opening).0

segment_lossless_example :
    audio_of (process fixed mid_segment outside (loud 20)).1.packets
      ++ pending fixed (process fixed mid_segment outside (loud 20)).0
    ≡ pending fixed mid_segment ++ (loud 20).payload ∷ []
unfolding run process dispatch process_idle process_candidate_start process_speaking listen
    maybe_confirm_start confirm_start accepts_start reject_start is_quiet maybe_force_segment_end
    enter_hit keep_hit noise_threshold observe_unless observe_noise rms_pcm16le sum_squares
    pcm_bytes_to_samples pcm_duration_ms resolved_kind passthrough Buffer.push Buffer.evict
    Buffer.packets Buffer.append Window.push Window.evict Window.ratio new_vad
segment_lossless_example =
    segment_lossless fixed energy false opening outside (loud 20) refl (refl, (refl, (refl, tt)))
      refl (refl, omega arith) refl refl

run_deaf_example : (run fixed detector (heard 25 ∷ heard 25 ∷ heard 25 ∷ [])).1 ≡ empty_result
unfolding new_vad resolved_kind pcm_duration_ms
run_deaf_example =
    run_deaf fixed energy false (heard 25 ∷ heard 25 ∷ heard 25 ∷ []) 25 refl (omega arith)
      (refl, refl, (refl, refl, (refl, refl, tt)))
