-- ===== src/Codec/MuLawLaws.antt =====
-- What G.711 μ-law promises: bytes survive a round trip, samples come back within half a step.
use gopbx.Prelude.{
  ℕ, ◌+◌, ◌*◌, ◌≤◌, ◌≡◌, ◌≢◌, refl, ℤ, pos, negsuc, true, leb, ◌==◌, ◌||◌, ◌&&◌, dist_ℤ,
  every_below, every_below-at, arith, pos_part, neg_part,
}
use gopbx.Codec.Pcm.{IsInt16, IsByte}
use gopbx.Codec.MuLaw.{linear_to_mu_law, mu_law_to_linear}

byte_table : every_below 256 (λ b. b == 0x7f || linear_to_mu_law (mu_law_to_linear b) == b) ≡ true
unfolding every_below linear_to_mu_law mu_law_to_linear
byte_table = refl

-- Encoding a decoded byte gives the byte back, for every byte but 0x7f, the second zero.
linear_to_mu_law-mu_law_to_linear :
    (b : ℕ) → IsByte b → b ≢ 0x7f → linear_to_mu_law (mu_law_to_linear b) ≡ b
linear_to_mu_law-mu_law_to_linear b h n = ground (arith, every_below-at _ 256 b byte_table h)

sample_table :
    every_below 32768 (λ m.
      leb (32 * dist_ℤ (mu_law_to_linear (linear_to_mu_law (pos m))) (pos m)) (m + 132)
      && leb (32 * dist_ℤ (mu_law_to_linear (linear_to_mu_law (negsuc m))) (negsuc m)) (m + 133))
    ≡ true
unfolding every_below linear_to_mu_law mu_law_to_linear
sample_table = refl

-- A sample in the range of `int16` comes back within (|s| + 132) / 32 of where it was: half a
-- quantisation step of its segment. The clipped samples above 32635 keep to the bound too.
pub mu_law_error :
    (s : ℤ)
    → IsInt16 s
    → 32 * dist_ℤ (mu_law_to_linear (linear_to_mu_law s)) s ≤ pos_part s + neg_part s + 132
mu_law_error (pos m) h = ground (arith, every_below-at _ 32768 m sample_table h)
mu_law_error (negsuc m) h = ground (arith, every_below-at _ 32768 m sample_table h)
