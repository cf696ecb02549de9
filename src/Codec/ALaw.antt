-- ===== src/Codec/ALaw.antt =====
-- pcma.go: G.711 A-law, as the source computes it.
use gopbx.Prelude.{
  ℕ, zero, suc, ◌+◌, ◌-◌, ◌*◌, ◌/◌, ◌^◌, ℤ, pos, negsuc, List, map, leb, ltb, ◌==◌, if◌then◌else◌,
  bit_and, bit_or, bit_xor, negate,
}
use gopbx.Codec.Pcm.{pcm_bytes_to_samples, pcm_samples_to_bytes}

-- The loop of `aLawSegment`, with `left` rounds to go.
unfoldable pub a_law_segment_from : ℕ → ℕ → ℕ → ℕ
a_law_segment_from pcm segment zero = 8
a_law_segment_from pcm segment (suc left) =
    let next = a_law_segment_from pcm (segment + 1) left in
    if leb pcm (0x1f * 2 ^ segment) then segment else next

unfoldable pub a_law_segment : ℕ → ℕ
unfolding a_law_segment_from
a_law_segment pcm = a_law_segment_from pcm 0 8

unfoldable pub a_law_mask : ℤ → ℕ
a_law_mask (pos n) = 0xD5
a_law_mask (negsuc n) = 0x55

-- `pcm`, or `-pcm - 8` raised to 0, cut at 0x7fff.
unfoldable pub a_law_magnitude : ℤ → ℕ
a_law_magnitude (pos n) = if ltb 0x7fff n then 0x7fff else n
a_law_magnitude (negsuc n) = let pcm = (n + 1) - 8 in if ltb 0x7fff pcm then 0x7fff else pcm

-- The seven bits before the mask is applied.
unfoldable pub a_law_bits : ℕ → ℕ
a_law_bits pcm =
    let segment = a_law_segment pcm in
    if leb 8 segment
    then 0x7f
    else bit_or (segment * 16)
        (bit_and (if ltb segment 2 then pcm / 16 else pcm / 2 ^ (segment + 3)) 0x0f)

unfoldable pub linear_to_a_law : ℤ → ℕ
unfolding a_law_mask
linear_to_a_law sample = bit_xor (a_law_bits (a_law_magnitude sample)) (a_law_mask sample)

-- The switch over the segment.
unfoldable pub a_law_expand : ℕ → ℕ → ℕ
a_law_expand zero t = t + 8
a_law_expand (suc zero) t = t + 0x108
a_law_expand (suc (suc s)) t = (t + 0x108) * 2 ^ suc s

unfoldable pub a_law_to_linear : ℕ → ℤ
unfolding a_law_expand
a_law_to_linear byte =
    let value = bit_xor byte 0x55 in
    let t = a_law_expand (bit_and value 0x70 / 16) (bit_and value 0x0f * 16) in
    if bit_and value 0x80 == 0 then negate (pos t) else pos t

-- `PCMACodec.Encode`
unfoldable pub a_encode : List ℕ → List ℕ
a_encode payload = map linear_to_a_law (pcm_bytes_to_samples payload)

-- `PCMACodec.Decode`
unfoldable pub a_decode : List ℕ → List ℕ
a_decode payload = pcm_samples_to_bytes (map a_law_to_linear payload)
