-- ===== src/Media/BufferLaws.antt =====
-- The held-back frames: what `Push` and `Append` keep, and within which limit.
use gopbx.Prelude.{
  All, if_intro, ◌*◌, ℕ, suc, ◌+◌, ◌-◌, ◌≤◌, ◌<◌, ◌≡◌, refl, ap, sym, true, false, inl, inr, List,
  [], ◌∷◌, ◌++◌, ltb, ◌==◌, ◌||◌, is_empty, length, length-append, Bool-cases, arith, append_assoc,
  zero, subst,
}
use mathlib.Core.List.{Sublist, sublist-append_left, sublist-append_right}
use mathlib.Core.List.Sublist
use gopbx.Media.Buffer.{BufferedAudio, IsWellFormed, evict, push, push_all, append, sum}

sum-append : (xs ys : List ℕ) → sum (xs ++ ys) ≡ sum xs + sum ys
sum-append [] ys = omega arith
sum-append (x ∷ xs) ys = omega (arith, sum-append xs ys)

-- What the eviction loop leaves: well-formed, within the limit, and the newest of the frames.
record Evicted (limit : ℕ) (fs : List (List ℕ)) (b : BufferedAudio) : Type 0 where
  well_formed : IsWellFormed b
  bounded : b.total_ms ≤ limit
  dropped : List (List ℕ)
  newest : fs ≡ dropped ++ b.frames

evict_lem :
    (limit : ℕ) (fs : List (List ℕ)) (ls : List ℕ) (total : ℕ)
    → length fs ≡ length ls
    → total ≡ sum ls
    → Evicted limit fs (evict limit fs ls total)
unfolding evict
evict_lem limit [] [] total p t = record {
  well_formed = record { paired = refl; counted = t };
  bounded = omega arith;
  dropped = [];
  newest = refl;
}
evict_lem limit [] (l ∷ ls) total p t = absurd (omega arith)
evict_lem limit (f ∷ fs) [] total p t = absurd (omega arith)
evict_lem limit (f ∷ fs) (l ∷ ls) total p t = elim (Bool-cases (ltb limit total)) [
  | inl over ↦
      rw (over, evict)
        (let r = evict_lem limit fs ls (total - l) (omega arith) (omega arith) in
          record {
            well_formed = r.well_formed;
            bounded = r.bounded;
            dropped = f ∷ r.dropped;
            newest = ap (◌∷◌ f) r.newest;
          })
  | inr fits ↦
      rw (fits, evict)
        (record {
          well_formed = record { paired = p; counted = t };
          bounded = ground arith;
          dropped = [];
          newest = refl;
        })
]

-- A frame that `Push` does not ignore.
abbrev pub IsFrame : List ℕ → ℕ → Type 0
IsFrame payload duration = (is_empty payload ≡ false) × (0 < duration)

-- A push within a limit keeps the buffer well-formed and within the limit, and leaves the newest
-- frames: the old ones and the new one, less some of the oldest.
push_limited :
    (b : BufferedAudio) (p : List ℕ) (d limit : ℕ)
    → IsWellFormed b
    → IsFrame p d
    → 0 < limit
    → IsWellFormed (push b p d limit)
      × ((push b p d limit).total_ms ≤ limit)
      × ((dropped : List (List ℕ)) × (b.frames ++ p ∷ [] ≡ dropped ++ (push b p d limit).frames))
unfolding push
push_limited b p d limit w f h =
    let r =
      evict_lem limit (b.frames ++ p ∷ []) (b.lengths ++ d ∷ []) (b.total_ms + d)
        (omega (arith, length-append b.frames (p ∷ []), length-append b.lengths (d ∷ []), w.paired))
        (omega (arith, sum-append b.lengths (d ∷ []), w.counted)) in
    rw (f.0, test_pos d f.1, test_pos limit h) (r.well_formed, r.bounded, (r.dropped, r.newest))
  where
    test_pos : (n : ℕ) → 0 < n → (n == 0) ≡ false
    test_pos n h = ground arith

-- With no limit nothing is dropped.
pub push_unlimited :
    (b : BufferedAudio) (p : List ℕ) (d : ℕ)
    → IsFrame p d
    → (push b p d 0).frames ≡ b.frames ++ p ∷ []
unfolding push
push_unlimited b p d f = ground arith

push_ignored :
    (b : BufferedAudio) (p : List ℕ) (d limit : ℕ)
    → (is_empty p || d == 0) ≡ true
    → push b p d limit ≡ b
unfolding push
push_ignored b p d limit h = rw h

IsFrame-of : (p : List ℕ) (d : ℕ) → (is_empty p || d == 0) ≡ false → IsFrame p d
IsFrame-of p d h = ground arith

-- A property of a buffer that is kept by a push that is ignored, by one without a limit, and by one
-- within a limit, is kept by every push.
push_cases {ℓ} :
    (P : BufferedAudio → Type ℓ) (b : BufferedAudio) (p : List ℕ) (d limit : ℕ)
    → P b
    → (IsFrame p d → P (push b p d 0))
    → (IsFrame p d → 0 < limit → P (push b p d limit))
    → P (push b p d limit)
push_cases P b p d zero same unlimited limited = elim (Bool-cases (is_empty p || d == 0)) [
  | inl e ↦ subst P (sym (push_ignored b p d 0 e)) same
  | inr e ↦ unlimited (IsFrame-of p d e)
]
push_cases P b p d (suc l) same unlimited limited = elim (Bool-cases (is_empty p || d == 0)) [
  | inl e ↦ subst P (sym (push_ignored b p d (suc l) e)) same
  | inr e ↦ limited (IsFrame-of p d e) (omega arith)
]

unlimited-IsWellFormed :
    (b : BufferedAudio) (p : List ℕ) (d : ℕ)
    → IsWellFormed b
    → IsFrame p d
    → IsWellFormed (push b p d 0)
unfolding push
unlimited-IsWellFormed b p d w f = ground (
  arith,
  length-append b.frames (p ∷ []),
  length-append b.lengths (d ∷ []),
  sum-append b.lengths (d ∷ []),
)

pub push-IsWellFormed :
    (b : BufferedAudio) (p : List ℕ) (d limit : ℕ)
    → IsWellFormed b
    → IsWellFormed (push b p d limit)
push-IsWellFormed b p d limit w =
    push_cases IsWellFormed b p d limit w (unlimited-IsWellFormed b p d w)
      (λ f h. (push_limited b p d limit w f h).0)

-- A push never passes a limit that the buffer kept before.
pub push-total_le :
    (b : BufferedAudio) (p : List ℕ) (d limit : ℕ)
    → IsWellFormed b
    → 0 < limit
    → b.total_ms ≤ limit
    → (push b p d limit).total_ms ≤ limit
push-total_le b p d limit w h t = elim (Bool-cases (is_empty p || d == 0)) [
  | inl e ↦ rw (push_ignored b p d limit e) t
  | inr e ↦ (push_limited b p d limit w (IsFrame-of p d e) h).1
]

-- The frames after a push are, in order, among those before and the new one.
pub push_sublist :
    (b : BufferedAudio) (p : List ℕ) (d limit : ℕ)
    → IsWellFormed b
    → Sublist (push b p d limit).frames (b.frames ++ p ∷ [])
push_sublist b p d limit w =
    push_cases (λ c. Sublist c.frames (b.frames ++ p ∷ [])) b p d limit
      (sublist-append_left b.frames (p ∷ []))
      (λ f.
        subst (λ fs. Sublist fs (b.frames ++ p ∷ [])) (sym (push_unlimited b p d f))
          (Sublist.refl _))
      (λ f h.
        let (dropped, e) = (push_limited b p d limit w f h).2 in
        subst (λ fs. Sublist (push b p d limit).frames fs) (sym e) (sublist-append_right dropped _))

pub push_all_lem :
    (b : BufferedAudio) (fs : List (List ℕ)) (ls : List ℕ) (limit : ℕ)
    → IsWellFormed b
    → IsWellFormed (push_all b fs ls limit)
      × Sublist (push_all b fs ls limit).frames (b.frames ++ fs)
unfolding push_all
push_all_lem b [] ls limit w = (w, sublist-append_left b.frames [])
push_all_lem b (f ∷ fs) [] limit w = (w, sublist-append_left b.frames (f ∷ fs))
push_all_lem b (f ∷ fs) (l ∷ ls) limit w =
    let ih = push_all_lem (push b f l limit) fs ls limit (push-IsWellFormed b f l limit w) in
    (
      ih.0,
      Sublist.trans ih.1 (
          subst (Sublist ((push b f l limit).frames ++ fs)) (append_assoc b.frames (f ∷ []) fs)
            (Sublist.append (push_sublist b f l limit w) (Sublist.refl fs))),
    )

-- `Append` moves frames of the second buffer behind those of the first, in order, and may drop some.
pub append_lem :
    (b o : BufferedAudio) (limit : ℕ)
    → IsWellFormed b
    → IsWellFormed (append b o limit) × Sublist (append b o limit).frames (b.frames ++ o.frames)
unfolding append
append_lem b o limit w = push_all_lem b o.frames o.lengths limit w

All-append : (Q : ℕ → Type 0) (xs : List ℕ) (y : ℕ) → All Q xs → Q y → All Q (xs ++ y ∷ [])
All-append Q [] y h q = (q, tt)
All-append Q (x ∷ xs) y h q = (h.0, All-append Q xs y h.1 q)

evict-All :
    (Q : ℕ → Type 0) (limit : ℕ) (fs : List (List ℕ)) (ls : List ℕ) (total : ℕ)
    → All Q ls
    → All Q (evict limit fs ls total).lengths
unfolding evict
evict-All Q limit [] ls total h = h
evict-All Q limit (f ∷ fs) [] total h = tt
evict-All Q limit (f ∷ fs) (l ∷ ls) total h =
    if_intro (λ (b : BufferedAudio). All Q b.lengths) (ltb limit total)
      (λ _. evict-All Q limit fs ls (total - l) h.1) (λ _. h)

-- What holds of every length, and of the new one, holds of every length after a push.
pub push-All :
    (Q : ℕ → Type 0) (b : BufferedAudio) (p : List ℕ) (d limit : ℕ)
    → All Q b.lengths
    → Q d
    → All Q (push b p d limit).lengths
unfolding push
push-All Q b p d limit h q =
    if_intro (λ (c : BufferedAudio). All Q c.lengths) (is_empty p || d == 0) (λ _. h)
      (λ _.
        if_intro (λ (c : BufferedAudio). All Q c.lengths) (limit == 0)
          (λ _. All-append Q b.lengths d h q)
          (λ _. evict-All Q limit _ _ _ (All-append Q b.lengths d h q)))

-- Lengths that are all one number have a multiple of it for their sum.
pub sum_uniform : (d : ℕ) (ls : List ℕ) → All (λ l. l ≡ d) ls → sum ls ≡ length ls * d
sum_uniform d [] h = omega arith
sum_uniform d (l ∷ ls) h = omega (arith, sum_uniform d ls h.1, h.0)
