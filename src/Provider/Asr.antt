-- ===== src/Provider/Asr.antt =====
-- internal/adapter/outbound/asr/provider.go: the choice of a recognizer.
use gopbx.Prelude.{
  Option, none, some, Text, codes, ◌++◌, ◌||◌, text_eq, is_empty, trim_space, to_lower,
  if◌then◌else◌,
}
use gopbx.Provider.Tts.{Provider, aliyun, mock}

unfoldable pub normalize_provider : Text → Text
normalize_provider name = to_lower (trim_space name)

-- The error text of `ValidateProvider`, or none.
unfoldable pub validate_provider : Text → Option Text
unfolding normalize_provider
validate_provider name =
    let normal = normalize_provider name in
    if is_empty normal || text_eq normal (codes "aliyun") || text_eq normal (codes "mock")
    then none
    else some (codes "unsupported asr provider: " ++ name)

unfoldable pub resolve_provider : Text → Provider
unfolding normalize_provider
resolve_provider name = if text_eq (normalize_provider name) (codes "aliyun") then aliyun else mock
