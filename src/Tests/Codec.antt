-- ===== src/Tests/Codec.antt =====
-- Samples, G.711 and resampling at concrete inputs.
use gopbx.Prelude.{◌*◌, ◌≤◌, ◌≡◌, refl, ℤ, pos, negsuc, List, [], ◌∷◌, dist_ℤ, arith}
use gopbx.Codec.MuLaw.{linear_to_mu_law, mu_law_to_linear}
use gopbx.Codec.MuLawLaws.{mu_law_error}
use gopbx.Codec.ALaw.{linear_to_a_law, a_law_to_linear, a_law_magnitude}
use gopbx.Codec.ALawLaws.{a_law_saturates}

abbrev three_samples : List ℤ
three_samples = pos 1000 ∷ negsuc 11999 ∷ pos 0 ∷ []

mu_law_error_example :
    32 * dist_ℤ (mu_law_to_linear (linear_to_mu_law (negsuc 11999))) (negsuc 11999) ≤ 12132
mu_law_error_example = mu_law_error (negsuc 11999) (omega arith)

silence_is_ff : linear_to_mu_law (pos 0) ≡ 0xff
unfolding linear_to_mu_law
silence_is_ff = refl

silence_is_d5 : linear_to_a_law (pos 0) ≡ 0xd5
unfolding linear_to_a_law a_law_magnitude gopbx.Codec.ALaw.a_law_bits gopbx.Codec.ALaw.a_law_segment
silence_is_d5 = refl

a_law_saturates_example : a_law_to_linear (linear_to_a_law (pos 12000)) ≡ pos 32256
unfolding a_law_magnitude
a_law_saturates_example = a_law_saturates (pos 12000) (omega arith)
