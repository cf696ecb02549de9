-- ===== src/Media/Vad/State.antt =====
-- processor/vad.go: the state of the voice detector, its loudness tests and its noise floor.
use gopbx.Prelude.{
  ℕ, ◌+◌, ◌-◌, ◌*◌, ◌/◌, ℤ, pos, Bool, true, ◌||◌, List, [], ◌∷◌, Option, ltb, ◌==◌, if◌then◌else◌,
  is_empty, length,
}
use gopbx.Codec.Pcm.{pcm_bytes_to_samples}
use gopbx.Media.Floats.{Floats}
use gopbx.Media.Buffer.{BufferedAudio, empty_buffer}
use gopbx.Media.Window.{ActivityWindow, empty_window}

pub data VadState : Type 0 where
  idle candidate_start talking candidate_end : VadState

-- The fields that `NewVAD` sets for good. `hybrid` is the test `mode == "hybrid"` and `bypass` the
-- test `mode == "passthrough"`, the only two that the source makes. A scorer is present or not.
pub record VadConfig (fl : Floats) : Type 0 where
  pub bypass : Bool
  pub hybrid : Bool
  pub has_scorer : Bool
  pub sample_rate : ℕ
  pub pre_roll_ms : ℕ
  pub start_window_ms : ℕ
  pub end_window_ms : ℕ
  pub silence_padding_ms : ℕ
  pub tail_padding_ms : ℕ
  pub max_segment_ms : ℕ
  pub enter_ratio : fl.Float64
  pub keep_ratio : fl.Float64
  pub start_activity_ratio : fl.Float64
  pub end_activity_ratio : fl.Float64
  pub resume_activity_ratio : fl.Float64
  pub min_enter_rms : fl.Float64
  pub min_keep_rms : fl.Float64
  pub silero_start_threshold : fl.Float32
  pub silero_end_threshold : fl.Float32

pub record Vad (fl : Floats) : Type 0 where
  pub config : VadConfig fl
  pub open config use *
  pub state : VadState
  pub noise_floor : fl.Float64
  pub noise_ready : Bool
  pub pre_roll : BufferedAudio
  pub start_buffer : BufferedAudio
  pub tail_buffer : BufferedAudio
  pub start_activity : ActivityWindow
  pub speech_activity : ActivityWindow
  pub segment_start_ms : ℤ
  pub segment_duration_ms : ℕ

-- What a call reads from outside.
pub record Outside (fl : Floats) : Type 0 where
  pub now : ℤ
  pub score : List ℕ → ℕ → Option fl.Float32

-- `pcmDurationMs`, rounded up.
unfoldable pub pcm_duration_ms : List ℕ → ℕ → ℕ
pcm_duration_ms payload sample_rate =
    if sample_rate == 0 || ltb (length payload) 2
    then 0
    else (length payload / 2 * 1000 + sample_rate - 1) / sample_rate

module _ (fl : Floats) where
  open fl use {Float64, Float32, of_int, decimal, add, mul, quotient, sqrt, maximum, le, lt32, le32}

  unfoldable pub sum_squares : Float64 → List ℤ → Float64
  sum_squares acc [] = acc
  sum_squares acc (s ∷ ss) = sum_squares (add acc (mul (of_int s) (of_int s))) ss

  -- `rmsPCM16LE`
  unfoldable pub rms_pcm16le : List ℕ → Float64
  rms_pcm16le payload =
      let samples = pcm_bytes_to_samples payload in
      if is_empty samples
      then of_int (pos 0)
      else sqrt (quotient (sum_squares (of_int (pos 0)) samples) (of_int (pos (length samples))))

  unfoldable pub noise_threshold : Vad fl → Float64 → Float64
  noise_threshold v r = if v.noise_ready then mul v.noise_floor r else of_int (pos 0)

  unfoldable pub enter_hit : Vad fl → Float64 → Bool
  enter_hit v rms = le (maximum v.min_enter_rms (noise_threshold v v.enter_ratio)) rms

  unfoldable pub keep_hit : Vad fl → Float64 → Bool
  keep_hit v rms = le (maximum v.min_keep_rms (noise_threshold v v.keep_ratio)) rms

  -- `observeNoiseLocked`; the constant 1 - 0.1 is folded by the compiler, exactly.
  unfoldable pub observe_noise : Vad fl → Float64 → Vad fl
  observe_noise v rms =
      if v.noise_ready
      then record v { noise_floor = add (mul v.noise_floor (decimal 9 1)) (mul rms (decimal 1 1)) }
      else record v { noise_floor = rms; noise_ready = true }

  -- The common `if !active { v.observeNoiseLocked(rms) }`.
  unfoldable pub observe_unless : Bool → Vad fl → Float64 → Vad fl
  observe_unless active v rms = if active then v else observe_noise v rms

  unfoldable pub reset_to_idle : Vad fl → Vad fl
  reset_to_idle v = record v {
    state = idle;
    pre_roll = empty_buffer;
    start_buffer = empty_buffer;
    tail_buffer = empty_buffer;
    start_activity = empty_window;
    speech_activity = empty_window;
    segment_start_ms = pos 0;
    segment_duration_ms = 0;
  }
