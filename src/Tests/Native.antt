-- ===== src/Tests/Native.antt =====
-- The scorer on ONNX Runtime, at concrete inputs.
use gopbx.Prelude.{ℕ, refl, pos_part, true, false, List, [], ◌∷◌, none, some, codes, length}
use gopbx.Codec.Pcm.{pcm_bytes_to_samples}
use gopbx.Provider.NativeScorer.{SetupAnswers, no_allocations}
use gopbx.Provider.NativeScorerLaws.{Settled, new_native_scorer-Settled}
use gopbx.Provider.NativeRun.{RunAnswers}
use gopbx.Provider.NativeScore.{score}
use gopbx.Provider.NativeRunLaws.{Leaves, score-Leaves}
use gopbx.Provider.NativeScoreLaws.{all_well, ScoredWindows, score-ScoredWindows}
use gopbx.Tests.Media.{fixed}

-- The session cannot be created.
abbrev no_session : SetupAnswers
no_session = record {
  api = true;
  create_env = none;
  create_options = none;
  set_intra = none;
  set_inter = none;
  set_optimization = none;
  create_session = some (codes "no model");
  create_memory_info = none;
}

new_native_scorer-Settled_example : Settled no_session
new_native_scorer-Settled_example = new_native_scorer-Settled no_session

-- A model whose probability is the number of samples, and whose state stays.
abbrev loudness : List ℕ → List ℕ → ℕ → ℕ × List ℕ
loudness input held sample_rate = (length input, held)

abbrev broken_state : ℕ → RunAnswers
broken_state n = record all_well { create_state = some (codes "no memory") }

abbrev payload : List ℕ
payload = 1 ∷ 0 ∷ 2 ∷ 0 ∷ []

score-Leaves_example :
    Leaves fixed pos_part loudness
      (λ _. none)
      broken_state
      8000
      no_allocations
      (score fixed pos_part loudness
        (λ _. none)
        broken_state
        8000
        none
        false
        no_allocations
        payload)
score-Leaves_example =
    score-Leaves fixed pos_part loudness (λ _. none) broken_state 8000 none false no_allocations
      payload

score-ScoredWindows_example : ScoredWindows fixed pos_part loudness 8000 256 (1 ∷ 2 ∷ []) (
    score fixed pos_part loudness
      (λ _. none)
      (λ _. all_well)
      8000
      none
      false
      no_allocations
      payload)
unfolding pcm_bytes_to_samples
score-ScoredWindows_example =
    score-ScoredWindows fixed pos_part loudness 8000 no_allocations payload refl refl
