-- ===== src/Provider/Tts.antt =====
-- internal/adapter/outbound/tts/provider.go and mock.go: the choice of a provider, and the mock one.
-- The Aliyun client (aliyun.go) is a parameter of what uses it.
use gopbx.Prelude.{
  ℕ, ◌+◌, ◌-◌, ◌*◌, ◌/◌, ◌%◌, ◌^◌, List, [], ◌∷◌, ◌++◌, Option, none, some, Text, codes, text_eq,
  is_empty, trim_space, to_lower, if◌then◌else◌, ◌==◌, ◌||◌,
}

pub data Provider : Type 0 where
  aliyun mock : Provider

-- What `Recv` and `Close` of a stream return: chunks, then `io.EOF` (none) or another error.
pub record Stream : Type 0 where
  pub chunks : List (List ℕ)
  pub recv_error : Option Text
  pub close_error : Option Text

unfoldable pub normalize_provider : Text → Text
normalize_provider name = to_lower (trim_space name)

-- The error text of `ValidateProvider`, or none.
unfoldable pub validate_provider : Text → Option Text
unfolding normalize_provider
validate_provider name =
    let normal = normalize_provider name in
    if is_empty normal || text_eq normal (codes "aliyun") || text_eq normal (codes "mock")
    then none
    else some (codes "unsupported tts provider: " ++ name)

unfoldable pub resolve_provider : Text → Provider
unfolding normalize_provider
resolve_provider name = if text_eq (normalize_provider name) (codes "aliyun") then aliyun else mock

-- `Name`
unfoldable pub provider_name : Provider → Text
provider_name aliyun = codes "aliyun"
provider_name mock = codes "mock"

unfoldable pub metric_key : Provider → Text → Text
metric_key aliyun prefix = prefix ++ codes ".tts.aliyun"
metric_key mock prefix = prefix ++ codes ".tts.mock"

-- The sample for the character `r` at index `i`, as two little-endian bytes; a negative one wraps
-- around.
abbrev mock_sample : ℕ → ℕ → ℕ
mock_sample i r = let sample = (i % 16 + 1) * 256 in if r % 2 == 0 then 2 ^ 16 - sample else sample

unfoldable pub mock_frames : ℕ → Text → List ℕ
mock_frames i [] = []
mock_frames i (r ∷ text) =
    let sample = mock_sample i r in sample % 256 ∷ sample / 256 ∷ 0 ∷ 0 ∷ mock_frames (i + 1) text

-- `mockPCM`, of an ASCII text: there an index counts characters.
unfoldable pub mock_pcm : Text → List ℕ
mock_pcm text = if is_empty (trim_space text) then 0 ∷ 0 ∷ 0 ∷ 0 ∷ [] else mock_frames 0 text

-- `MockProvider.StartSynthesis`: one chunk, then the end.
unfoldable pub mock_synthesis : Text → Stream
mock_synthesis text = record { chunks = mock_pcm text ∷ []; recv_error = none; close_error = none }
