-- ===== src/Provider/NativeRun.antt =====
-- vad/native_linux.go: a run of the model on an input, `runChunk`. What the runtime answers, and what the model
-- computes, are inputs.
use gopbx.Prelude.{ℕ, List, [], ◌∷◌, ◌++◌, Option, none, some, Text, codes, Fallible, ok, failure}
use gopbx.Media.Floats.{Floats}
use gopbx.Provider.NativeScorer.{
  Allocations, Tensor, pcm, state, rate, output, output_state, value, allocate, release,
  wrap_status,
}

-- What the runtime answers to the calls of a run: the error of each, or none.
pub record RunAnswers : Type 0 where
  pub create_pcm : Option Text
  pub create_state : Option Text
  pub create_rate : Option Text
  pub run_session : Option Text
  pub get_output : Option Text
  pub get_state : Option Text

module _ (fl : Floats)
    (infer : List fl.Float32 → List fl.Float32 → ℕ → fl.Float32 × List fl.Float32) where
  -- What a run leaves: the allocations, the inputs that the model was run on so far, the state that the
  -- caller holds, and the probability.
  pub record Run : Type 0 where
    pub allocations : Allocations
    pub inputs : List (List fl.Float32)
    pub held_state : List fl.Float32
    pub result : Fallible fl.Float32

  -- The creation of a tensor: the allocations after it, and its error.
  abbrev creating : Tensor → Option Text → Text → Allocations → Allocations × Option Text
  creating t none action a = (allocate (value t) a, none)
  creating t (some m) action a = wrap_status (some m) action a

  -- What a part of the run leaves, with the release that was deferred before it.
  abbrev pub deferred : Tensor → Run → Run
  deferred t r = record r { allocations = release (value t) r.allocations }

  -- The return on an error, and what follows where there is none.
  abbrev pub or_return :
      List (List fl.Float32)
      → List fl.Float32
      → Allocations × Option Text
      → (Allocations → Run)
      → Run
  or_return inputs held (a, none) next = next a
  or_return inputs held (a, some e) next = record {
    allocations = a;
    inputs = inputs;
    held_state = held;
    result = failure e;
  }

  -- `runChunk` on an input, after the runs on `inputs`, from its end to its beginning.
  module _ (q : RunAnswers) (inputs : List (List fl.Float32)) (input held : List fl.Float32)
      (sample_rate : ℕ) where
    abbrev both : List (List fl.Float32)
    both = inputs ++ input ∷ []

    abbrev read_outputs : Allocations → Run
    read_outputs a =
        or_return both held (wrap_status q.get_output (codes "get output tensor") a) (λ a1.
          or_return both held (wrap_status q.get_state (codes "get output state tensor") a1) (λ a2.
            record {
              allocations = a2;
              inputs = both;
              held_state = (infer input held sample_rate).1;
              result = ok (infer input held sample_rate).0;
            }))

    abbrev run_session : Allocations → Run
    run_session a = or_return inputs held (wrap_status q.run_session (codes "run session") a) (λ a1.
        deferred output (
          deferred output_state
            (read_outputs (allocate (value output_state) (allocate (value output) a1)))))

    abbrev with_state : Allocations → Run
    with_state a =
        or_return inputs held (creating rate q.create_rate (codes "create sample-rate tensor") a)
          (λ a1. deferred rate (run_session a1))

    abbrev with_pcm : Allocations → Run
    with_pcm a =
        or_return inputs held (creating state q.create_state (codes "create state tensor") a)
          (λ a1. deferred state (with_state a1))

    unfoldable pub run_chunk : Allocations → Run
    unfolding allocate release wrap_status
    run_chunk a =
        or_return inputs held (creating pcm q.create_pcm (codes "create pcm tensor") a)
          (λ a1. deferred pcm (with_pcm a1))
