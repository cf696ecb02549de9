-- ===== src/Codec/ALawLaws.antt =====
-- What the A-law routines do: the decoder is one to one and odd, the encoder keeps signs, and it
-- saturates at 3969 and -3977 already.
use gopbx.Prelude.{
  ℕ, ◌+◌, ◌≤◌, ◌<◌, ◌≡◌, refl, ℤ, pos, negsuc, Bool, true, false, ◌==◌, ◌||◌, ◌&&◌, every_below,
  every_below-at, arith, if◌then◌else◌, dist_ℤ, not,
}
use gopbx.Codec.Pcm.{IsInt16, IsByte}
use gopbx.Codec.ALaw.{linear_to_a_law, a_law_to_linear, a_law_magnitude, a_law_bits, a_law_segment}

inj_table :
    every_below 256 (λ a.
      every_below 256 (λ b. a == b || not (dist_ℤ (a_law_to_linear a) (a_law_to_linear b) == 0)))
    ≡ true
unfolding every_below a_law_to_linear
inj_table = refl

abbrev pub is_negative : ℤ → Bool
is_negative (pos n) = false
is_negative (negsuc n) = true

sign_table :
    every_below 32768 (λ m.
      not (is_negative (a_law_to_linear (linear_to_a_law (pos m))))
      && is_negative (a_law_to_linear (linear_to_a_law (negsuc m))))
    ≡ true
unfolding every_below linear_to_a_law a_law_magnitude a_law_bits a_law_segment a_law_to_linear
sign_table = refl

dist_zero : (s t : ℤ) → s ≡ t → (dist_ℤ s t == 0) ≡ true
dist_zero s t e = ground arith

-- Two bytes that stand for one sample are one byte.
a_law_to_linear_injective :
    (a b : ℕ) → IsByte a → IsByte b → a_law_to_linear a ≡ a_law_to_linear b → a ≡ b
a_law_to_linear_injective a b ha hb e = ground (
  arith,
  every_below-at _ 256 b (every_below-at _ 256 a inj_table ha) hb,
  dist_zero (a_law_to_linear a) (a_law_to_linear b) e,
)

-- A sample comes back with its sign: negative samples negative, the others positive.
a_law_sign : (s : ℤ) → IsInt16 s → is_negative (a_law_to_linear (linear_to_a_law s)) ≡ is_negative s
a_law_sign (pos m) h = ground (arith, every_below-at _ 32768 m sign_table h)
a_law_sign (negsuc m) h = ground (arith, every_below-at _ 32768 m sign_table h)

segment_of_loud : (m : ℕ) → 3968 < m → a_law_segment m ≡ 8
unfolding a_law_segment
segment_of_loud m h = ground arith

a_law_bits_loud : (m : ℕ) → 3968 < m → a_law_bits m ≡ 0x7f
unfolding a_law_bits
a_law_bits_loud m h = rw (segment_of_loud m h)

-- From 3969 up, and from -3977 down: the encoder takes 8 from the magnitude of a negative sample.
abbrev pub IsLoud : ℤ → Type 0
IsLoud (pos m) = 3969 ≤ m
IsLoud (negsuc n) = 3977 ≤ n + 1

magnitude_of_loud : (s : ℤ) → IsLoud s → 3968 < a_law_magnitude s
unfolding a_law_magnitude
magnitude_of_loud (pos m) h = ground arith
magnitude_of_loud (negsuc n) h = ground arith

-- Every sample from 3969 up comes back as 32256, and every sample from -3977 down as -32256: the encoder has
-- cut it to the loudest byte.
pub a_law_saturates :
    (s : ℤ)
    → IsLoud s
    → a_law_to_linear (linear_to_a_law s) ≡ (if is_negative s then negsuc 32255 else pos 32256)
unfolding linear_to_a_law a_law_to_linear
a_law_saturates (pos m) h = rw (a_law_bits_loud _ (magnitude_of_loud (pos m) h))
a_law_saturates (negsuc n) h = rw (a_law_bits_loud _ (magnitude_of_loud (negsuc n) h))
