-- ===== src/Provider/NativeRunLaws.antt =====
-- vad/native_linux.go: what a run of the model and the score of a payload leave allocated.
use gopbx.Prelude.{
  ℕ, zero, suc, ◌+◌, ◌-◌, ◌<◌, ◌≤◌, ◌≡◌, refl, ◌∙◌, arith, tests, Bool, ◌||◌, List, Option, none,
  some, Text, length, if_intro, ltb, ltb→lt, Fallible, ok, failure, ℤ, is_empty, ◌==◌,
}
use gopbx.Media.Floats.{Floats}
use gopbx.Provider.NativeScorer.{Allocations, allocate, release, wrap_status}
use gopbx.Provider.NativeRun.{RunAnswers, Run, run_chunk}
use gopbx.Provider.NativeScore.{
  Scan, window_at, ran, round, go_on, scan_from, first_scan, finished, window_size, score_samples,
  score, input_for, pcm16_to_float32,
}

module _ (fl : Floats)
    (infer : List fl.Float32 → List fl.Float32 → ℕ → fl.Float32 × List fl.Float32) where
  answered-allocations :
      (pcm state rate session output new_state : Option Text) (inputs : List (List fl.Float32))
      (input held : List fl.Float32) (sample_rate : ℕ) (a : Allocations)
      → (run_chunk fl infer
          (record {
            create_pcm = pcm;
            create_state = state;
            create_rate = rate;
            run_session = session;
            get_output = output;
            get_state = new_state;
          })
          inputs
          input
          held
          sample_rate
          a).allocations
        ≡ a
  unfolding run_chunk allocate release wrap_status
  answered-allocations (some m) b c d e f inputs input held sample_rate a = refl
  answered-allocations none (some m) c d e f inputs input held sample_rate a = refl
  answered-allocations none none (some m) d e f inputs input held sample_rate a = refl
  answered-allocations none none none (some m) e f inputs input held sample_rate a = refl
  answered-allocations none none none none (some m) f inputs input held sample_rate a = refl
  answered-allocations none none none none none (some m) inputs input held sample_rate a = refl
  answered-allocations none none none none none none inputs input held sample_rate a = refl

  -- Whatever the runtime answers, a run releases every tensor and status that it created.
  pub run_chunk-allocations :
      (q : RunAnswers) (inputs : List (List fl.Float32)) (input held : List fl.Float32)
      (sample_rate : ℕ) (a : Allocations)
      → (run_chunk fl infer q inputs input held sample_rate a).allocations ≡ a
  run_chunk-allocations q inputs input held sample_rate a =
      answered-allocations q.create_pcm q.create_state q.create_rate q.run_session q.get_output
        q.get_state inputs input held sample_rate a

module _ (fl : Floats) (scaled : ℤ → fl.Float32)
    (infer : List fl.Float32 → List fl.Float32 → ℕ → fl.Float32 × List fl.Float32) where
  ran-allocations :
      (s : Scan fl scaled infer) (chunk : List fl.Float32) (r : Run fl infer)
      (result : Fallible fl.Float32)
      → (ran fl scaled infer s chunk r result).0.allocations ≡ r.allocations
  ran-allocations s chunk r (ok p) = refl
  ran-allocations s chunk r (failure e) = refl

  round-allocations :
      (cancelled : Option Text) (q : RunAnswers) (sample_rate : ℕ) (s : Scan fl scaled infer)
      (chunk : List fl.Float32)
      → (round fl scaled infer cancelled q sample_rate s chunk).0.allocations ≡ s.allocations
  round-allocations (some e) q sample_rate s chunk = refl
  round-allocations none q sample_rate s chunk =
      let r =
        run_chunk fl infer q s.inputs (input_for fl scaled infer s chunk) s.held_state sample_rate
          s.allocations in
      ran-allocations s chunk r r.result
      ∙ run_chunk-allocations fl infer q s.inputs (input_for fl scaled infer s chunk) s.held_state
          sample_rate s.allocations

  module _ (cancelled : ℕ → Option Text) (answers : ℕ → RunAnswers) (sample_rate : ℕ) where
    -- The code returns, and leaves these allocations.
    abbrev pub Leaves {ℓ} : {A : Type ℓ} → Allocations → Option (Scan fl scaled infer × A) → Type 0
    Leaves a none = ⊥
    Leaves a (some t) = t.0.allocations ≡ a

    go_on-Leaves :
        (a : Allocations)
        (next : Scan fl scaled infer → Option (Scan fl scaled infer × Option Text))
        (t : Scan fl scaled infer × Option Text)
        → ((s : Scan fl scaled infer) → s.allocations ≡ a → Leaves a (next s))
        → t.0.allocations ≡ a
        → Leaves a (go_on fl scaled infer cancelled answers sample_rate next t)
    go_on-Leaves a next (s, none) h e = h s e
    go_on-Leaves a next (s, some m) h e = e

    scan_from-Leaves :
        (fuel size : ℕ) (samples : List fl.Float32) (n offset : ℕ) (s : Scan fl scaled infer)
        (a : Allocations)
        → length samples - offset < fuel
        → 1 ≤ size
        → s.allocations ≡ a
        → Leaves a
            (scan_from fl scaled infer cancelled answers sample_rate fuel size samples n offset s)
    unfolding scan_from
    scan_from-Leaves zero size samples n offset s a l z e = absurd (omega arith)
    scan_from-Leaves (suc fuel) size samples n offset s a l z e =
        if_intro (Leaves a) (ltb offset (length samples))
          (λ h.
            go_on-Leaves a _
              (round fl scaled infer (cancelled n) (answers n) sample_rate s
                (window_at fl scaled infer size samples offset))
              (λ t f.
                scan_from-Leaves fuel size samples (suc n) (offset + size) t a
                  (omega (tests, ltb→lt offset (length samples) h)) z f)
              (round-allocations (cancelled n) (answers n) sample_rate s
                  (window_at fl scaled infer size samples offset)
                ∙ e))
          (λ h. e)

    finished-Leaves :
        (a : Allocations) (o : Option (Scan fl scaled infer × Option Text))
        → Leaves a o
        → Leaves a (finished fl scaled infer cancelled answers sample_rate o)
    finished-Leaves a (some (s, none)) h = h
    finished-Leaves a (some (s, some e)) h = h
    finished-Leaves a none h = h

    score_samples-Leaves :
        (closed : Bool) (a : Allocations) (samples : Fallible (List fl.Float32))
        → Leaves a (score_samples fl scaled infer cancelled answers sample_rate closed a samples)
    score_samples-Leaves closed a (failure e) = refl
    score_samples-Leaves closed a (ok samples) =
        let size = window_size fl scaled infer cancelled answers sample_rate in
        let h =
          scan_from-Leaves (suc (length samples)) size samples 0 0
            (first_scan fl scaled infer cancelled answers sample_rate a) a (omega arith)
            (if_intro (λ n. 1 ≤ n) (sample_rate == 8000) (λ e. omega arith) (λ e. omega arith))
            refl in
        if_intro (Leaves a) (is_empty samples) (λ e. refl)
          (λ e. if_intro (Leaves a) closed (λ f. refl) (λ f. finished-Leaves a _ h))

    -- Whatever the context says and the runtime answers in each round, `Score` returns, and every tensor
    -- and status that it made the runtime create is released.
    pub score-Leaves :
        (cancelled_first : Option Text) (closed : Bool) (a : Allocations) (payload : List ℕ)
        → Leaves a
            (score fl scaled infer cancelled answers sample_rate cancelled_first closed a payload)
    unfolding score
    score-Leaves (some e) closed a payload = refl
    score-Leaves none closed a payload =
        if_intro (Leaves a) (sample_rate == 8000 || sample_rate == 16000)
          (λ e. score_samples-Leaves closed a (pcm16_to_float32 fl scaled infer payload))
          (λ e. refl)
