-- ===== src/Media/Vad/New.antt =====
-- processor/vad.go: `NewVAD` and the defaults of its options.
use gopbx.Prelude.{
  ℕ, ◌*◌, ◌%◌, ◌^◌, pos, Bool, false, Option, none, some, ltb, ◌==◌, if◌then◌else◌, Text, codes,
  text_eq, or_else, trim_space, to_lower, min, max,
}
use gopbx.Protocol.Command.{VadOption}
use gopbx.Media.Floats.{Floats}
use gopbx.Media.Buffer.{empty_buffer}
use gopbx.Media.Window.{empty_window}
use gopbx.Media.Vad.State.{idle, Vad}

-- Go's `int(u)` of a `uint64`. A value from 2^63 on turns negative, which everything that reads
-- such a field treats as it treats 0.
unfoldable pub int_of_uint64 : ℕ → ℕ
int_of_uint64 u = let n = u % 2 ^ 64 in if ltb n (2 ^ 63) then n else 0

module _ (fl : Floats) where
  open fl use {Float64, Float32, of_int, decimal, add, mul, quotient, sqrt, maximum, le, lt32, le32}

  -- `valueOrUint64`, `valueOrUint32`: an option that is absent or 0 gives the fallback.
  unfoldable pub value_or : Option (VadOption Float32) → (VadOption Float32 → Option ℕ) → ℕ → ℕ
  value_or none pick fallback = fallback
  value_or (some option) pick fallback = elim (pick option) [
    | none ↦ fallback
    | some n ↦ if n == 0 then fallback else n
  ]

  -- `valueOrFloat32`: an option that is absent or not positive gives the fallback.
  unfoldable pub value_or_float :
      Option (VadOption Float32) → (VadOption Float32 → Option Float32) → Float32 → Float32
  value_or_float none pick fallback = fallback
  value_or_float (some option) pick fallback = elim (pick option) [
    | none ↦ fallback
    | some x ↦ if le32 x (fl.decimal32 0 0) then fallback else x
  ]

  -- `derefVADString` at the field `Type`.
  unfoldable pub kind_of : Option (VadOption Float32) → Text
  kind_of none = codes ""
  kind_of (some option) = elim option.kind [ none ↦ codes "" | some t ↦ t ]

  -- `NewVAD`
  unfoldable pub new_vad : Option (VadOption Float32) → Bool → Vad fl
  unfolding value_or value_or_float kind_of int_of_uint64 text_eq or_else to_lower trim_space
  new_vad cfg has_scorer =
      let mode = or_else (to_lower (trim_space (kind_of cfg))) (codes "passthrough") in
      let silence_padding = int_of_uint64 (value_or cfg (λ v. v.silence_padding) 600) in
      record {
        config = record {
          bypass = text_eq mode (codes "passthrough");
          hybrid = text_eq mode (codes "hybrid");
          has_scorer = has_scorer;
          sample_rate = value_or cfg (λ v. v.samplerate) 16000;
          pre_roll_ms = int_of_uint64 (value_or cfg (λ v. v.speech_padding) 200);
          start_window_ms = max 60 (20 * 3);
          end_window_ms = max (min 200 silence_padding) (20 * 3);
          silence_padding_ms = silence_padding;
          tail_padding_ms = 160;
          max_segment_ms = int_of_uint64 (value_or cfg (λ v. v.max_buffer_duration_secs) 12 * 1000);
          enter_ratio = fl.widen (value_or_float cfg (λ v. v.ratio) (fl.decimal32 22 1));
          keep_ratio = decimal 16 1;
          start_activity_ratio = decimal 6 1;
          end_activity_ratio = decimal 2 1;
          resume_activity_ratio = decimal 4 1;
          min_enter_rms = decimal 120 0;
          min_keep_rms = decimal 96 0;
          silero_start_threshold = value_or_float cfg (λ v. v.voice_threshold) (fl.decimal32 65 2);
          silero_end_threshold = fl.decimal32 35 2;
        };
        state = idle;
        noise_floor = of_int (pos 0);
        noise_ready = false;
        pre_roll = empty_buffer;
        start_buffer = empty_buffer;
        tail_buffer = empty_buffer;
        start_activity = empty_window;
        speech_activity = empty_window;
        segment_start_ms = pos 0;
        segment_duration_ms = 0;
      }
