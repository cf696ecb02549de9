-- ===== src/Codec/Resample.antt =====
-- codec.go: `ResamplePCM16LE`, nearest-neighbour resampling.
use gopbx.Prelude.{
  ℕ, zero, suc, ◌+◌, ◌-◌, ◌*◌, ◌/◌, ℤ, pos, List, [], ◌∷◌, leb, ◌==◌, ◌||◌, if◌then◌else◌, length,
  get_or,
}
use gopbx.Codec.Pcm.{pcm_bytes_to_samples, pcm_samples_to_bytes}

-- The source index of output `i`, held inside the input.
unfoldable pub src_index : ℕ → ℕ → ℕ → ℕ → ℕ
src_index len src dst i = let index = i * src / dst in if leb len index then len - 1 else index

-- The loop that fills the output, from index `i` with `left` samples to go. The index is always
-- inside a non-empty input, so the default of `get_or` is never read.
unfoldable pub fill : List ℤ → ℕ → ℕ → ℕ → ℕ → List ℤ
unfolding src_index
fill input src dst i zero = []
fill input src dst i (suc left) =
    get_or input (src_index (length input) src dst i) (pos 0) ∷ fill input src dst (i + 1) left

unfoldable pub resample_len : ℕ → ℕ → ℕ → ℕ
resample_len len src dst = let n = len * dst / src in if leb n 0 then len else n

unfoldable pub resample_samples : List ℤ → ℕ → ℕ → List ℤ
unfolding fill resample_len
resample_samples input src dst = fill input src dst 0 (resample_len (length input) src dst)

-- The rates that the callers pass are not negative: a `uint32` clock rate, or a constant.
unfoldable pub resample_pcm16le : List ℕ → ℕ → ℕ → List ℕ
unfolding resample_samples
resample_pcm16le payload src dst =
    if length payload == 0 || leb src 0 || leb dst 0 || src == dst
    then payload
    else pcm_samples_to_bytes (resample_samples (pcm_bytes_to_samples payload) src dst)
