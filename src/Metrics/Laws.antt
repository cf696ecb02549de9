-- ===== src/Metrics/Laws.antt =====
-- metrics.go: a counter counts.
use gopbx.Prelude.{
  ℕ, ◌+◌, ◌%◌, ◌^◌, ◌≡◌, refl, ap, ◌∙◌, Bool, true, false, List, [], ◌∷◌, Text, text_eq,
  text_eq_iff, is_empty, if◌then◌else◌, arith,
}
use gopbx.Metrics.{Metrics, change, value, inc}

value-change-same :
    (f : ℕ → ℕ) (name : Text) (m : List (Text × ℕ))
    → value 0 name (change 0 f name m) ≡ f (value 0 name m)
unfolding value change
value-change-same f name [] = rw ((text_eq_iff name name).1 refl) refl
value-change-same f name ((k, v) ∷ m) = ground (arith, value-change-same f name m)

value-change-other :
    (f : ℕ → ℕ) (name other : Text) (m : List (Text × ℕ))
    → text_eq name other ≡ false
    → value 0 other (change 0 f name m) ≡ value 0 other m
unfolding value change
value-change-other f name other [] d = rw d refl
value-change-other f name other ((k, v) ∷ m) d =
    let ih = value-change-other f name other m d in
    let same : text_eq k name ≡ true → text_eq k other ≡ false =
      λ e. ap (λ u. text_eq u other) ((text_eq_iff k name).0 e) ∙ d in
    ground (arith, ih, same)

-- How often a name stands in a list.
abbrev pub occurrences : Text → List Text → ℕ
occurrences name [] = 0
occurrences name (n ∷ names) =
    let rest = occurrences name names in if text_eq n name then rest + 1 else rest

abbrev pub inc_all : Metrics → List Text → Metrics
inc_all m [] = m
inc_all m (name ∷ names) = inc_all (inc m name) names

inc_case :
    (counted name : Text) (m : List (Text × ℕ)) (b : Bool)
    → text_eq counted name ≡ b
    → value 0 name (change 0 (λ k. (k + 1) % 2 ^ 64) counted m)
      ≡ (if b then (value 0 name m + 1) % 2 ^ 64 else value 0 name m)
inc_case counted name m true e =
    ap (λ u. value 0 name (change 0 (λ k. (k + 1) % 2 ^ 64) u m)) ((text_eq_iff counted name).0 e)
    ∙ value-change-same (λ k. (k + 1) % 2 ^ 64) name m
inc_case counted name m false e = value-change-other (λ k. (k + 1) % 2 ^ 64) counted name m e

inc-value :
    (m : Metrics) (counted name : Text)
    → is_empty name ≡ false
    → value 0 name (inc m counted).counters ≡ (
        if text_eq counted name
        then (value 0 name m.counters + 1) % 2 ^ 64
        else value 0 name m.counters)
unfolding inc text_eq value
inc-value m counted [] n = cc
inc-value m [] (x ∷ name) n = refl
inc-value m (c ∷ counted) (x ∷ name) n =
    inc_case (c ∷ counted) (x ∷ name) m.counters (text_eq (c ∷ counted) (x ∷ name)) refl

wrapped :
    (b : Bool) (v n : ℕ)
    → ((if b then (v + 1) % 2 ^ 64 else v) + n) % 2 ^ 64 ≡ (v + (if b then n + 1 else n)) % 2 ^ 64
wrapped true v n = omega arith
wrapped false v n = omega arith

-- The counter of a name that is not empty says how often the name was counted, up to the wrap of a `uint64`.
inc_all-value :
    (m : Metrics) (names : List Text) (name : Text)
    → is_empty name ≡ false
    → value 0 name (inc_all m names).counters % 2 ^ 64
      ≡ (value 0 name m.counters + occurrences name names) % 2 ^ 64
inc_all-value m [] name n = omega arith
inc_all-value m (c ∷ names) name n =
    inc_all-value (inc m c) names name n
    ∙ ap (λ k. (k + occurrences name names) % 2 ^ 64) (inc-value m c name n)
    ∙ wrapped (text_eq c name) (value 0 name m.counters) (occurrences name names)
