-- ===== src/Codec/Pcm.antt =====
-- codec.go: little-endian PCM16 bytes and `int16` samples.
-- A byte is a number below 256, a sample an integer from -32768 to 32767.

use gopbx.Prelude.{
  ℕ, ◌+◌, ◌-◌, ◌*◌, ◌/◌, ◌%◌, ◌<◌, ℤ, pos, negsuc, List, [], ◌∷◌, ltb, if◌then◌else◌,
}

-- Go's conversion `int16(u)` of a `uint16`.
unfoldable pub int16 : ℕ → ℤ
int16 u = if ltb u 32768 then pos u else negsuc (65535 - u)

-- Go's conversion `uint16(s)` of an `int16`.
unfoldable pub uint16 : ℤ → ℕ
uint16 (pos n) = n % 65536
uint16 (negsuc n) = 65535 - n % 65536

-- `binary.LittleEndian.Uint16` at a pair of bytes.
unfoldable pub le_uint16 : ℕ → ℕ → ℕ
le_uint16 lo hi = lo + hi * 256

-- The count of samples is `len(payload) / 2`: a trailing odd byte is dropped.
unfoldable pub pcm_bytes_to_samples : List ℕ → List ℤ
unfolding int16 le_uint16
pcm_bytes_to_samples [] = []
pcm_bytes_to_samples (lo ∷ []) = []
pcm_bytes_to_samples (lo ∷ hi ∷ rest) = int16 (le_uint16 lo hi) ∷ pcm_bytes_to_samples rest

-- `binary.LittleEndian.PutUint16` of each sample.
unfoldable pub pcm_samples_to_bytes : List ℤ → List ℕ
unfolding uint16
pcm_samples_to_bytes [] = []
pcm_samples_to_bytes (s ∷ rest) = (uint16 s % 256) ∷ (uint16 s / 256) ∷ pcm_samples_to_bytes rest

-- The values that an `int16` has.
abbrev pub IsInt16 : ℤ → Type 0
IsInt16 (pos n) = n < 32768
IsInt16 (negsuc n) = n < 32768

abbrev pub IsByte : ℕ → Type 0
IsByte b = b < 256
