-- ===== src/Codec/ResampleLaws.antt =====
-- Nearest-neighbour resampling: how long the output is, and which sample stands where.
use gopbx.Prelude.{
  ℕ, zero, suc, ◌+◌, ◌*◌, ◌/◌, ◌<◌, ◌≡◌, refl, ap, sym, ◌∙◌, ℤ, pos, List, [], ◌∷◌, some, length,
  get_or, get_elem?, arith, add-zero,
}
use native.Mathlib.Nat.{div-lt_iff_lt-mul, zero-add, le-div_iff_mul-le}
use gopbx.Codec.Resample.{src_index, fill, resample_len, resample_samples}

pub length-fill : (input : List ℤ) (src dst i left : ℕ) → length (fill input src dst i left) ≡ left
unfolding fill
length-fill input src dst i zero = refl
length-fill input src dst i (suc left) = omega (arith, length-fill input src dst (i + 1) left)

shift : (i k : ℕ) → i + suc k ≡ i + 1 + k
shift i k = omega arith

get_elem?-fill :
    (input : List ℤ) (src dst i left k : ℕ)
    → k < left
    → get_elem? (fill input src dst i left) k
      ≡ some (get_or input (src_index (length input) src dst (i + k)) (pos 0))
unfolding fill
get_elem?-fill input src dst i zero k h = absurd (omega arith)
get_elem?-fill input src dst i (suc left) zero h = rw add-zero
get_elem?-fill input src dst i (suc left) (suc k) h =
    rw (shift i k) (get_elem?-fill input src dst (i + 1) left k (omega arith))

get_elem?-get_or :
    (xs : List ℤ) (k : ℕ) → k < length xs → get_elem? xs k ≡ some (get_or xs k (pos 0))
get_elem?-get_or [] k h = absurd (omega arith)
get_elem?-get_or (x ∷ xs) zero h = refl
get_elem?-get_or (x ∷ xs) (suc k) h = get_elem?-get_or xs k (omega arith)

-- The clamp of the index is never needed.
src_in_range : (len src dst i : ℕ) → 0 < src → 0 < dst → i < len * dst / src → i * src / dst < len
src_in_range len src dst i hs hd h =
    (div-lt_iff_lt-mul hd).1 (omega (arith, (le-div_iff_mul-le hs).0 h))

index_lem :
    (len src dst i : ℕ) → i * src / dst < len → src_index len src dst (0 + i) ≡ i * src / dst
unfolding src_index
index_lem len src dst i h = ground (arith, zero-add i)

-- For positive rates the output has `len * dst / src` samples (where that is not 0), and output `i`
-- is input `i * src / dst`, an index inside the input.
resample_nearest :
    (input : List ℤ) (src dst i : ℕ)
    → 0 < src
    → 0 < dst
    → i < length input * dst / src
    → (length (resample_samples input src dst) ≡ length input * dst / src)
      × (i * src / dst < length input)
      × (get_elem? (resample_samples input src dst) i ≡ get_elem? input (i * src / dst))
unfolding resample_samples resample_len
resample_nearest input src dst i hs hd h =
    (len_lem, src_in_range (length input) src dst i hs hd h, elem_lem)
  where
    n_lem : resample_len (length input) src dst ≡ length input * dst / src
    n_lem = ground arith

    len_lem : length (resample_samples input src dst) ≡ length input * dst / src
    len_lem = length-fill input src dst 0 _ ∙ n_lem

    elem_lem : get_elem? (resample_samples input src dst) i ≡ get_elem? input (i * src / dst)
    elem_lem =
        get_elem?-fill input src dst 0 _ i (omega (arith, n_lem))
        ∙ ap (λ k. some (get_or input k (pos 0)))
            (index_lem (length input) src dst i (src_in_range (length input) src dst i hs hd h))
        ∙ sym (get_elem?-get_or input _ (src_in_range (length input) src dst i hs hd h))
