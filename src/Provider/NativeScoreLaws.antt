-- ===== src/Provider/NativeScoreLaws.antt =====
-- vad/native_linux.go: the inputs on which `Score` runs the model, and the score, where nothing fails.
use gopbx.Provider.Windows.{
  drop-drop, split-cons, Windows, drop-all, padded, split, take-all, split-Windows,
}
use gopbx.Codec.Pcm.{pcm_bytes_to_samples}
use gopbx.Prelude.{
  ◌==◌, ◌||◌, ◌%◌, map, ℕ, zero, suc, ◌+◌, ◌-◌, ◌<◌, ◌≤◌, ◌≡◌, refl, sym, ◌∙◌, ap, subst, arith,
  Bool, true, false, List, [], ◌∷◌, ◌++◌, Option, none, some, append_assoc, append-nil, Text,
  length, take, drop, replicate, if_intro, if◌then◌else◌, ltb, ltb→lt, Fallible, ok, failure, ℤ,
  length-drop,
}
use gopbx.Media.Floats.{Floats}
use gopbx.Provider.NativeScorer.{Allocations, allocate, release, wrap_status}
use gopbx.Provider.NativeRun.{RunAnswers, run_chunk}
use gopbx.Provider.NativeScore.{
  Scan, window_at, round, go_on, scan_from, first_scan, finished, window_size, score_samples, score,
  input_for, pcm16_to_float32, min_int,
}

-- Nothing fails.
abbrev pub all_well : RunAnswers
all_well = record {
  create_pcm = none;
  create_state = none;
  create_rate = none;
  run_session = none;
  get_output = none;
  get_state = none;
}

module _ {ℓ} {A : Type ℓ} where
  take-min_int :
      (size offset : ℕ) (xs : List A)
      → offset < length xs
      → take (min_int (offset + size) (length xs) - offset) (drop offset xs)
        ≡ take size (drop offset xs)
  unfolding min_int
  take-min_int size offset xs h =
      let ys = drop offset xs in
      if_intro (λ m. take (m - offset) ys ≡ take size ys) (ltb (offset + size) (length xs))
        (λ e. let same : offset + size - offset ≡ size = omega arith in ap (λ k. take k ys) same)
        (λ e.
          take-all (length xs - offset) ys (omega (arith, length-drop offset xs))
          ∙ sym (take-all size ys (ground (arith, length-drop offset xs))))

module _ (fl : Floats) (scaled : ℤ → fl.Float32)
    (infer : List fl.Float32 → List fl.Float32 → ℕ → fl.Float32 × List fl.Float32)
    (sample_rate : ℕ) where
  abbrev nought : fl.Float32
  nought = fl.decimal32 0 0

  -- What the model is to be run on: each window, with the last 64 samples of the one before it in front.
  abbrev pub inputs_of : Bool → List fl.Float32 → List (List fl.Float32) → List (List fl.Float32)
  inputs_of has_context context [] = []
  inputs_of has_context context (w ∷ ws) =
      (if has_context then context ++ w else w) ∷ inputs_of true (drop (length w - 64) w) ws

  -- The greatest of a probability and of those that the model gives on the inputs, its state passed on.
  abbrev pub greatest : List fl.Float32 → fl.Float32 → List (List fl.Float32) → fl.Float32
  greatest held best [] = best
  greatest held best (input ∷ inputs) =
      let (probability, held1) = infer input held sample_rate in
      greatest held1 (if fl.lt32 best probability then probability else best) inputs

  abbrev Scanned :
      Scan fl scaled infer
      → List (List fl.Float32)
      → Option (Scan fl scaled infer × Option Text)
      → Type 0
  Scanned s ws none = ⊥
  Scanned s ws (some (t, some e)) = ⊥
  Scanned s ws (some (t, none)) =
      (t.inputs ≡ s.inputs ++ inputs_of s.has_context s.context ws)
      × (t.best ≡ greatest s.held_state s.best (inputs_of s.has_context s.context ws))

  abbrev well_scan :
      ℕ
      → ℕ
      → List fl.Float32
      → ℕ
      → ℕ
      → Scan fl scaled infer
      → Option (Scan fl scaled infer × Option Text)
  well_scan = scan_from fl scaled infer (λ _. none) (λ _. all_well) sample_rate

  -- The variables after a round on a window, where nothing fails.
  abbrev after_window : Scan fl scaled infer → List fl.Float32 → Scan fl scaled infer
  after_window s w =
      let (probability, held) = infer (input_for fl scaled infer s w) s.held_state sample_rate in
      record s {
        inputs = s.inputs ++ input_for fl scaled infer s w ∷ [];
        held_state = held;
        context = drop (length w - 64) w;
        has_context = true;
        best = if fl.lt32 s.best probability then probability else s.best;
      }

  after_window-Scanned :
      (s : Scan fl scaled infer) (w : List fl.Float32) (ws : List (List fl.Float32))
      (o : Option (Scan fl scaled infer × Option Text))
      → Scanned (after_window s w) ws o
      → Scanned s (w ∷ ws) o
  after_window-Scanned s w ws (some (t, none)) (h, g) =
      (h ∙ append_assoc s.inputs (input_for fl scaled infer s w ∷ []) _, g)
  after_window-Scanned s w ws (some (t, some e)) h = h
  after_window-Scanned s w ws none h = h

  round-after_window :
      (s : Scan fl scaled infer) (w : List fl.Float32)
      → round fl scaled infer none all_well sample_rate s w ≡ (after_window s w, none)
  unfolding run_chunk allocate release wrap_status
  round-after_window s w = refl

  -- The windows from an offset on are the one at the offset and those from the next on.
  split_from :
      (size offset : ℕ) (samples : List fl.Float32) (fuel : ℕ)
      → offset < length samples
      → split nought (suc fuel) size (drop offset samples)
        ≡ window_at fl scaled infer size samples offset
          ∷ split nought fuel size (drop (offset + size) samples)
  split_from size offset samples fuel h =
      let rest = drop offset samples in
      split-cons nought fuel size rest (omega (arith, length-drop offset samples))
      ∙ ap (λ ys. padded nought size ys ∷ split nought fuel size (drop size rest))
          (sym (take-min_int size offset samples h))
      ∙ ap (λ ys. window_at fl scaled infer size samples offset ∷ split nought fuel size ys)
          (drop-drop offset size samples)

  scan_from-Scanned :
      (fuel size : ℕ) (samples : List fl.Float32) (n offset : ℕ) (s : Scan fl scaled infer)
      → length samples - offset < fuel
      → 1 ≤ size
      → Scanned s
          (split nought fuel size (drop offset samples))
          (well_scan fuel size samples n offset s)
  unfolding scan_from
  scan_from-Scanned zero size samples n offset s h z = absurd (omega arith)
  scan_from-Scanned (suc fuel) size samples n offset s h z =
      let rest = drop offset samples in
      let w = window_at fl scaled infer size samples offset in
      let next = well_scan fuel size samples (suc n) (offset + size) in
      if_intro (Scanned s (split nought (suc fuel) size rest)) (ltb offset (length samples))
        (λ e.
          let ih =
            scan_from-Scanned fuel size samples (suc n) (offset + size) (after_window s w)
              (ground arith) z in
          let cut = split_from size offset samples fuel (ltb→lt offset (length samples) e) in
          subst
            (λ t.
              Scanned s (split nought (suc fuel) size rest)
                (go_on fl scaled infer (λ _. none) (λ _. all_well) sample_rate next t))
            (sym (round-after_window s w))
            (subst (λ ws. Scanned s ws (next (after_window s w))) (sym cut)
              (after_window-Scanned s w (split nought fuel size (drop (offset + size) samples)) _
                ih)))
        (λ e.
          subst (λ xs. Scanned s (split nought (suc fuel) size xs) (some (s, none)))
            (sym (drop-all offset samples (ground arith))) (sym (append-nil s.inputs), refl))

  -- A result of `Score` that is the greatest probability over the windows of the samples.
  abbrev pub ScoredWindows :
      ℕ → List fl.Float32 → Option (Scan fl scaled infer × Fallible fl.Float32) → Type 0
  ScoredWindows size samples none = ⊥
  ScoredWindows size samples (some (t, failure e)) = ⊥
  ScoredWindows size samples (some (t, ok p)) =
      (ws : List (List fl.Float32)) × Windows nought size samples ws
      × (t.inputs ≡ inputs_of false (replicate 64 nought) ws)
      × (p ≡ greatest (replicate 256 nought) nought t.inputs)

  finished-ScoredWindows :
      (size : ℕ) (samples : List fl.Float32) (ws : List (List fl.Float32)) (a : Allocations)
      (o : Option (Scan fl scaled infer × Option Text))
      → Windows nought size samples ws
      → Scanned (first_scan fl scaled infer (λ _. none) (λ _. all_well) sample_rate a) ws o
      → ScoredWindows size samples
          (finished fl scaled infer (λ _. none) (λ _. all_well) sample_rate o)
  finished-ScoredWindows size samples ws a (some (t, none)) w (h, g) =
      (ws, w, h, g ∙ ap (greatest (replicate 256 nought) nought) (sym h))
  finished-ScoredWindows size samples ws a (some (t, some e)) w h = absurd h
  finished-ScoredWindows size samples ws a none w h = absurd h

  abbrev size_of : ℕ
  size_of = window_size fl scaled infer (λ _. none) (λ _. all_well) sample_rate

  size_of-pos : 1 ≤ size_of
  size_of-pos = if_intro (λ n. 1 ≤ n) (sample_rate == 8000) (λ e. omega arith) (λ e. omega arith)

  samples-ScoredWindows :
      (a : Allocations) (samples : List fl.Float32)
      → ScoredWindows size_of samples (
          score_samples fl scaled infer
            (λ _. none)
            (λ _. all_well)
            sample_rate
            false
            a
            (ok samples))
  samples-ScoredWindows a [] =
      ([], split-Windows nought 0 size_of [] (omega arith) size_of-pos, refl, refl)
  samples-ScoredWindows a (x ∷ xs) =
      let samples = x ∷ xs in
      finished-ScoredWindows size_of samples (split nought (suc (length samples)) size_of samples) a
        _ (split-Windows nought (suc (length samples)) size_of samples (omega arith) size_of-pos)
        (scan_from-Scanned (suc (length samples)) size_of samples 0 0
          (first_scan fl scaled infer (λ _. none) (λ _. all_well) sample_rate a) (omega arith)
          size_of-pos)

  -- Where nothing fails, for a rate that is supported and a payload of whole samples: `Score` returns. It
  -- has run the model once on each window of the samples, which all have the size for the rate, 256 or 512,
  -- are joined the samples and less than a window of zeros, and from the second on stand behind the last 64
  -- samples of the window before. The score is the greatest of zero and the probabilities, as the model
  -- gives them with its state passed on from run to run.
  pub score-ScoredWindows :
      (a : Allocations) (payload : List ℕ)
      → (sample_rate == 8000 || sample_rate == 16000) ≡ true
      → (length payload % 2 == 0) ≡ true
      → ScoredWindows
          (if sample_rate == 8000 then 256 else 512)
          (map scaled (pcm_bytes_to_samples payload))
          (score fl scaled infer (λ _. none) (λ _. all_well) sample_rate none false a payload)
  unfolding score pcm16_to_float32
  score-ScoredWindows a payload r e =
      rw (r, e) (samples-ScoredWindows a (map scaled (pcm_bytes_to_samples payload)))
