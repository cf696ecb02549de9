-- ===== src/Provider/NativeScore.antt =====
-- vad/native_linux.go: the score of a payload over its windows. What the runtime
-- answers, and what the model computes, are inputs.
use gopbx.Prelude.{
  ℕ, zero, suc, ◌+◌, ◌-◌, ◌%◌, ℤ, Bool, true, false, ◌||◌, List, [], ◌++◌, Option, none, some, Text,
  codes, is_empty, if◌then◌else◌, ◌==◌, ltb, Fallible, ok, failure, length, take, drop, replicate,
  map,
}
use gopbx.Codec.Pcm.{pcm_bytes_to_samples}
use gopbx.Media.Floats.{Floats}
use gopbx.Session.Track.{format_track_seq}
use gopbx.Provider.NativeScorer.{Allocations}
use gopbx.Provider.NativeRun.{RunAnswers, Run, run_chunk}

-- `minInt`
unfoldable pub min_int : ℕ → ℕ → ℕ
min_int a b = if ltb a b then a else b

module _ (fl : Floats) (scaled : ℤ → fl.Float32)
    (infer : List fl.Float32 → List fl.Float32 → ℕ → fl.Float32 × List fl.Float32) where
  abbrev pub zero32 : fl.Float32
  zero32 = fl.decimal32 0 0

  -- `pcm16ToFloat32`, with `scaled s` for `float32(s)/32768.0`.
  unfoldable pub pcm16_to_float32 : List ℕ → Fallible (List fl.Float32)
  pcm16_to_float32 payload =
      if length payload % 2 == 0
      then ok (map scaled (pcm_bytes_to_samples payload))
      else failure (codes "pcm16le body length must be even")

  -- The variables of the loop of `Score`, and the inputs that the model was run on.
  pub record Scan : Type 0 where
    pub allocations : Allocations
    pub inputs : List (List fl.Float32)
    pub held_state : List fl.Float32
    pub context : List fl.Float32
    pub has_context : Bool
    pub best : fl.Float32

  -- The window at an offset: `chunk` after the `copy` into it.
  abbrev pub window_at : ℕ → List fl.Float32 → ℕ → List fl.Float32
  window_at size samples offset =
      let part = take (min_int (offset + size) (length samples) - offset) (drop offset samples) in
      part ++ replicate (size - length part) zero32

  -- The rest of a round, after the run on its window.
  abbrev pub ran : Scan → List fl.Float32 → Run fl infer → Fallible fl.Float32 → Scan × Option Text
  ran s chunk r (failure e) = (
    record s { allocations = r.allocations; inputs = r.inputs; held_state = r.held_state },
    some e,
  )
  ran s chunk r (ok probability) = (
    record {
      allocations = r.allocations;
      inputs = r.inputs;
      held_state = r.held_state;
      context = drop (length chunk - 64) chunk;
      has_context = true;
      best = if fl.lt32 s.best probability then probability else s.best;
    },
    none,
  )

  abbrev pub input_for : Scan → List fl.Float32 → List fl.Float32
  input_for s chunk = if s.has_context then s.context ++ chunk else chunk

  -- A round of the loop, on what `ctx.Err()` says at its beginning.
  abbrev pub round : Option Text → RunAnswers → ℕ → Scan → List fl.Float32 → Scan × Option Text
  round (some e) q sample_rate s chunk = (s, some e)
  round none q sample_rate s chunk =
      let r =
        run_chunk fl infer q s.inputs (input_for s chunk) s.held_state sample_rate s.allocations in
      ran s chunk r r.result

  -- The rounds, with what the context and the runtime say in each.
  module _ (cancelled : ℕ → Option Text) (answers : ℕ → RunAnswers) (sample_rate : ℕ) where
    abbrev pub go_on :
        (Scan → Option (Scan × Option Text)) → Scan × Option Text → Option (Scan × Option Text)
    go_on next (s, none) = next s
    go_on next (s, some e) = some (s, some e)

    -- The loop from a round on, none where the fuel is too little.
    unfoldable pub scan_from : ℕ → ℕ → List fl.Float32 → ℕ → ℕ → Scan → Option (Scan × Option Text)
    unfolding min_int run_chunk
    scan_from zero size samples n offset s = none
    scan_from (suc fuel) size samples n offset s =
        let rest =
          go_on (λ t. scan_from fuel size samples (suc n) (offset + size) t)
            (round (cancelled n) (answers n) sample_rate s (window_at size samples offset)) in
        if ltb offset (length samples) then rest else some (s, none)

    abbrev pub first_scan : Allocations → Scan
    first_scan a = record {
      allocations = a;
      inputs = [];
      held_state = replicate 256 zero32;
      context = replicate 64 zero32;
      has_context = false;
      best = zero32;
    }

    abbrev pub best_of : Scan × Option Text → Scan × Fallible fl.Float32
    best_of (s, none) = (s, ok s.best)
    best_of (s, some e) = (s, failure e)

    abbrev pub finished : Option (Scan × Option Text) → Option (Scan × Fallible fl.Float32)
    finished none = none
    finished (some t) = some (best_of t)

    abbrev pub window_size : ℕ
    window_size = if sample_rate == 8000 then 256 else 512

    -- `Score` on the samples of a payload, once they are read.
    abbrev pub score_samples :
        Bool → Allocations → Fallible (List fl.Float32) → Option (Scan × Fallible fl.Float32)
    score_samples closed a (failure e) = some (first_scan a, failure e)
    score_samples closed a (ok samples) =
        let scanned =
          finished (scan_from (suc (length samples)) window_size samples 0 0 (first_scan a)) in
        if is_empty samples
        then some (first_scan a, ok zero32)
        else if closed
        then some (first_scan a, failure (codes "native scorer is closed"))
        else scanned

    -- `Score`, with what `ctx.Err()` says at its beginning and whether the scorer is closed.
    unfoldable pub score :
        Option Text → Bool → Allocations → List ℕ → Option (Scan × Fallible fl.Float32)
    unfolding pcm16_to_float32 scan_from
    score (some e) closed a payload = some (first_scan a, failure e)
    score none closed a payload =
        if sample_rate == 8000 || sample_rate == 16000
        then score_samples closed a (pcm16_to_float32 payload)
        else some (
          first_scan a,
          failure (codes "unsupported sample rate: " ++ format_track_seq sample_rate),
        )
