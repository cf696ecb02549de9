-- ===== src/Codec/PcmLaws.antt =====
-- Bytes and samples convert into one another without loss.
use gopbx.Prelude.{
  ℕ, ◌*◌, ◌/◌, ◌%◌, ◌≡◌, refl, ap, ap₂, ◌∙◌, ℤ, pos, negsuc, List, [], ◌∷◌, length, All, arith,
}
use gopbx.Codec.Pcm.{int16, uint16, le_uint16, pcm_bytes_to_samples, pcm_samples_to_bytes, IsInt16}

pub int16-uint16 : (s : ℤ) → IsInt16 s → int16 (uint16 s) ≡ s
unfolding int16 uint16
int16-uint16 (pos n) h = ground arith
int16-uint16 (negsuc n) h = ground arith

le_uint16_split : (u : ℕ) → le_uint16 (u % 256) (u / 256) ≡ u
unfolding le_uint16
le_uint16_split u = omega arith

-- Writing samples as bytes and reading them back gives the samples.
pcm_bytes_to_samples-pcm_samples_to_bytes :
    (ss : List ℤ) → All IsInt16 ss → pcm_bytes_to_samples (pcm_samples_to_bytes ss) ≡ ss
unfolding pcm_bytes_to_samples pcm_samples_to_bytes
pcm_bytes_to_samples-pcm_samples_to_bytes [] h = refl
pcm_bytes_to_samples-pcm_samples_to_bytes (s ∷ ss) h =
    ap₂ ◌∷◌ (ap int16 (le_uint16_split (uint16 s)) ∙ int16-uint16 s h.0)
      (pcm_bytes_to_samples-pcm_samples_to_bytes ss h.1)

-- Reading yields one sample for each full pair of bytes.
pub length-pcm_bytes_to_samples : (bs : List ℕ) → length (pcm_bytes_to_samples bs) ≡ length bs / 2
unfolding pcm_bytes_to_samples
length-pcm_bytes_to_samples [] = omega arith
length-pcm_bytes_to_samples (lo ∷ []) = omega arith
length-pcm_bytes_to_samples (lo ∷ hi ∷ rest) = omega (arith, length-pcm_bytes_to_samples rest)

pub length-pcm_samples_to_bytes : (ss : List ℤ) → length (pcm_samples_to_bytes ss) ≡ 2 * length ss
unfolding pcm_samples_to_bytes
length-pcm_samples_to_bytes [] = omega arith
length-pcm_samples_to_bytes (s ∷ ss) = omega (arith, length-pcm_samples_to_bytes ss)
