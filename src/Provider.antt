-- ===== src/Provider.antt =====
-- internal/adapter/outbound: the providers that sessions choose from.
pub mod Tts
pub mod Asr
pub mod AliyunAsr
pub mod AliyunAsrLaws
pub mod AliyunTts
pub mod ChunkQueue
pub mod AliyunTtsLaws
pub mod AliyunConfig
pub mod AliyunConfigLaws
pub mod AliyunCallbacks
pub mod MockAsr
pub mod VadScorer
pub mod VadScorerLaws
pub mod NativeScorer
pub mod NativeScorerLaws
pub mod NativeRun
pub mod NativeScore
pub mod NativeRunLaws
pub mod Windows
pub mod NativeScoreLaws
pub mod AliyunStart
pub mod AliyunStartLaws
pub mod AliyunWriteLaws
