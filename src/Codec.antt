-- ===== src/Codec.antt =====
-- internal/app/media/codec: PCM16 samples, G.711 and resampling.
pub mod Pcm
pub mod PcmLaws
pub mod MuLaw
pub mod MuLawLaws
pub mod ALaw
pub mod ALawLaws
pub mod Resample
pub mod ResampleLaws
pub mod Names
