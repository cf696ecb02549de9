-- ===== src/Provider/Windows.antt =====
-- vad/native_linux.go: how the loop of `Score` cuts the samples into windows.
use gopbx.Prelude.{
  ℕ, zero, suc, ◌+◌, ◌-◌, ◌<◌, ◌≤◌, ◌≡◌, refl, sym, ◌∙◌, ap, subst, arith, tests, List, [], ◌∷◌,
  ◌++◌, append_assoc, append-nil, length, take, drop, replicate, All, if◌then◌else◌, ltb, is_empty,
  length-append, length-take, length-drop, length-replicate, take-append-drop, Bool-cases, inl, inr,
}

abbrev pub concat {ℓ} : {A : Type ℓ} → List (List A) → List A
concat [] = []
concat (xs ∷ xss) = xs ++ concat xss

module _ {ℓ} {A : Type ℓ} where
  pub take-all : (n : ℕ) (xs : List A) → length xs ≤ n → take n xs ≡ xs
  take-all zero [] h = refl
  take-all (suc n) [] h = refl
  take-all zero (x ∷ xs) h = absurd (omega arith)
  take-all (suc n) (x ∷ xs) h = ap (λ ys. x ∷ ys) (take-all n xs (omega arith))

  pub drop-all : (n : ℕ) (xs : List A) → length xs ≤ n → drop n xs ≡ []
  drop-all zero [] h = refl
  drop-all (suc n) [] h = refl
  drop-all zero (x ∷ xs) h = absurd (omega arith)
  drop-all (suc n) (x ∷ xs) h = drop-all n xs (omega arith)

-- A list cut into windows of a size, the last one padded.
module _ {ℓ} {A : Type ℓ} (pad : A) where
  -- The windows are all of the size, and joined they are the list and less than a window of padding.
  pub record Windows (size : ℕ) (xs : List A) (ws : List (List A)) : Type ℓ where
    pub padding : ℕ
    pub few : padding < size
    pub sized : All (λ w. length w ≡ size) ws
    pub joined : concat ws ≡ xs ++ replicate padding pad

  abbrev pub padded : ℕ → List A → List A
  padded size xs = xs ++ replicate (size - length xs) pad

  abbrev pub split : ℕ → ℕ → List A → List (List A)
  split zero size xs = []
  split (suc fuel) size xs =
      let rest = split fuel size (drop size xs) in
      if is_empty xs then [] else padded size (take size xs) ∷ rest

  length-padded : (size : ℕ) (xs : List A) → length xs ≤ size → length (padded size xs) ≡ size
  length-padded size xs h = omega (
    arith,
    length-append xs (replicate (size - length xs) pad),
    length-replicate (size - length xs) pad,
  )

  pub split-nil : (fuel size : ℕ) → split fuel size [] ≡ []
  split-nil zero size = refl
  split-nil (suc fuel) size = refl

  -- A last window, and a window with others after it.
  last-Windows :
      (size fuel : ℕ) (xs : List A)
      → 1 ≤ length xs
      → length xs < size
      → Windows size xs (padded size (take size xs) ∷ split fuel size (drop size xs))
  last-Windows size fuel xs h l =
      rw (take-all size xs (omega arith), drop-all size xs (omega arith), split-nil fuel size)
        (record {
          padding = size - length xs;
          few = omega arith;
          sized = (length-padded size xs (omega arith), tt);
          joined = append-nil (xs ++ replicate (size - length xs) pad);
        })

  padded-full : (size : ℕ) (xs : List A) → length xs ≡ size → padded size xs ≡ xs
  padded-full size xs e =
      let none_left : 0 ≡ size - length xs = omega arith in
      subst (λ n. xs ++ replicate n pad ≡ xs) none_left (append-nil xs)

  cons-Windows :
      (size : ℕ) (xs : List A) (ws : List (List A))
      → size ≤ length xs
      → Windows size (drop size xs) ws
      → Windows size xs (padded size (take size xs) ∷ ws)
  cons-Windows size xs ws l h =
      let full : length (take size xs) ≡ size = omega (arith, length-take size xs) in
      record {
        padding = h.padding;
        few = h.few;
        sized = (ap length (padded-full size (take size xs) full) ∙ full, h.sized);
        joined =
            ap (λ ys. ys ++ concat ws) (padded-full size (take size xs) full)
            ∙ ap (λ ys. take size xs ++ ys) h.joined
            ∙ sym (append_assoc (take size xs) (drop size xs) (replicate h.padding pad))
            ∙ ap (λ ys. ys ++ replicate h.padding pad) (take-append-drop size xs);
      }

  pub split-Windows :
      (fuel size : ℕ) (xs : List A)
      → length xs ≤ fuel
      → 1 ≤ size
      → Windows size xs (split fuel size xs)
  split-Windows fuel size [] h z =
      rw (split-nil fuel size) (record { padding = 0; few = z; sized = tt; joined = refl })
  split-Windows zero size (x ∷ xs) h z = absurd (omega arith)
  split-Windows (suc fuel) size (x ∷ xs) h z = elim (Bool-cases (ltb (length (x ∷ xs)) size)) [
    | inl e ↦ last-Windows size fuel (x ∷ xs) (omega arith) (omega tests)
    | inr e ↦
        cons-Windows size (x ∷ xs) _ (ground arith) (
          split-Windows fuel size (drop size (x ∷ xs)) (omega (arith, length-drop size (x ∷ xs))) z)
  ]

module _ {ℓ} {A : Type ℓ} where
  drop-nil : (n : ℕ) → drop {A = A} n [] ≡ []
  drop-nil zero = refl
  drop-nil (suc n) = refl

  pub drop-drop : (m n : ℕ) (xs : List A) → drop n (drop m xs) ≡ drop (m + n) xs
  drop-drop zero n xs = ap (λ k. drop k xs) (omega arith)
  drop-drop (suc m) zero [] = sym (drop-nil (suc m + zero))
  drop-drop (suc m) (suc n) [] = sym (drop-nil (suc m + suc n))
  drop-drop (suc m) n (x ∷ xs) =
      let further : suc (m + n) ≡ suc m + n = omega arith in
      drop-drop m n xs ∙ ap (λ k. drop k (x ∷ xs)) further

  -- A list that is not empty is cut into a first window and those of the rest.
  pub split-cons :
      (pad : A) (fuel size : ℕ) (xs : List A)
      → 1 ≤ length xs
      → split pad (suc fuel) size xs
        ≡ padded pad size (take size xs) ∷ split pad fuel size (drop size xs)
  split-cons pad fuel size [] h = absurd (omega arith)
  split-cons pad fuel size (x ∷ xs) h = refl
