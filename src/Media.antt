-- ===== src/Media.antt =====
-- internal/app/media and internal/domain/media: packets, the processors and their chain.
pub mod Floats
pub mod Packet
pub mod Buffer
pub mod BufferLaws
pub mod Window
pub mod WindowLaws
pub mod Vad
pub mod Track
pub mod Asr
pub mod AsrLaws
pub mod AsrSends
pub mod Chain
pub mod ChainLaws
pub mod WebRtc
pub mod WebRtcLaws
pub mod PlaybackLaws
pub mod Negotiation
pub mod NegotiationLaws
