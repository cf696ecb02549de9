-- ===== src/Codec/MuLaw.antt =====
-- pcmu.go: G.711 μ-law.
use gopbx.Prelude.{
  ℕ, zero, suc, ◌+◌, ◌-◌, ◌*◌, ◌/◌, ◌^◌, ℤ, pos, negsuc, List, map, true, false, ltb, ◌==◌,
  if◌then◌else◌, bit_and, bit_or, negate,
}
use gopbx.Codec.Pcm.{pcm_bytes_to_samples, pcm_samples_to_bytes}

abbrev pub bias : ℕ
bias = 0x84

abbrev pub clip : ℕ
clip = 32635

-- `pcm` after the sign is taken off. On the 64-bit `int`, `-pcm` is positive again, so the source's
-- second test `pcm < 0` never succeeds.
unfoldable pub mu_magnitude : ℤ → ℕ
mu_magnitude (pos n) = n
mu_magnitude (negsuc n) = suc n

unfoldable pub mu_sign : ℤ → ℕ
mu_sign (pos n) = 0
mu_sign (negsuc n) = 0x80

-- The loop that lowers `exponent` while the masked bit is clear.
unfoldable pub mu_exponent : ℕ → ℕ → ℕ → ℕ
mu_exponent pcm mask zero = 0
mu_exponent pcm mask (suc e) = elim (bit_and pcm mask == 0) [
  | true ↦ mu_exponent pcm (mask / 2) e
  | false ↦ suc e
]

-- `^(sign | (exponent << 4) | mantissa)` as a byte, for `pcm` with the bias added.
unfoldable pub mu_pack : ℕ → ℕ → ℕ
unfolding mu_exponent
mu_pack sign pcm =
    let exponent = mu_exponent pcm 0x4000 7 in
    let mantissa = bit_and (pcm / 2 ^ (exponent + 3)) 0x0f in
    255 - bit_or (bit_or sign (exponent * 16)) mantissa

unfoldable pub linear_to_mu_law : ℤ → ℕ
unfolding mu_magnitude mu_sign mu_pack
linear_to_mu_law sample =
    let pcm = mu_magnitude sample in
    mu_pack (mu_sign sample) ((if ltb clip pcm then clip else pcm) + bias)

-- `value` is inverted first. The result lies within an `int16`, so the last conversion keeps it.
unfoldable pub mu_law_to_linear : ℕ → ℤ
mu_law_to_linear byte =
    let value = 255 - byte in
    let sign = bit_and value 0x80 in
    let exponent = bit_and (value / 16) 0x07 in
    let mantissa = bit_and value 0x0f in
    let pcm = (mantissa * 8 + bias) * 2 ^ exponent - bias in
    if sign == 0 then pos pcm else negate (pos pcm)

-- `PCMUCodec.Encode`
unfoldable pub mu_encode : List ℕ → List ℕ
mu_encode payload = map linear_to_mu_law (pcm_bytes_to_samples payload)

-- `PCMUCodec.Decode`
unfoldable pub mu_decode : List ℕ → List ℕ
mu_decode payload = pcm_samples_to_bytes (map mu_law_to_linear payload)
