-- ===== src/Metrics.antt =====
-- internal/observability/metrics.go: counters and durations under names.
mod Laws
use gopbx.Prelude.{ℕ, ◌+◌, ◌%◌, ◌^◌, List, [], ◌∷◌, ◌++◌, Text, text_eq, is_empty, if◌then◌else◌}

-- The two maps, as association lists.
pub record Metrics : Type 0 where
  pub counters : List (Text × ℕ)
  pub durations : List (Text × List ℕ)

unfoldable pub new_metrics : Metrics
new_metrics = record { counters = []; durations = [] }

-- Change the value under a name, or put one there that is changed.
unfoldable pub change {ℓ} : {A : Type ℓ} → A → (A → A) → Text → List (Text × A) → List (Text × A)
change start f name [] = (name, f start) ∷ []
change start f name ((k, v) ∷ m) =
    let rest = change start f name m in if text_eq k name then (k, f v) ∷ m else (k, v) ∷ rest

-- The value under a name, or the zero value.
unfoldable pub value {ℓ} : {A : Type ℓ} → A → Text → List (Text × A) → A
value start name [] = start
value start name ((k, v) ∷ m) = let rest = value start name m in if text_eq k name then v else rest

-- `Inc`, of a `uint64`.
unfoldable pub inc : Metrics → Text → Metrics
unfolding change
inc m name =
    if is_empty name
    then m
    else record m { counters = change 0 (λ n. (n + 1) % 2 ^ 64) name m.counters }

-- `Observe`
unfoldable pub observe : Metrics → Text → ℕ → Metrics
unfolding change
observe m name v =
    if is_empty name
    then m
    else record m { durations = change [] (λ vs. vs ++ v ∷ []) name m.durations }
