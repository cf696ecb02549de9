-- ===== src/Media/Vad.antt =====
-- processor/vad.go: the voice activity detector.
-- `process` takes what the source reads from outside as an argument: the clock, and what the scorer
-- answers (`none` is an error). Times are milliseconds.
pub mod State
pub mod Segment
pub mod Process
pub mod New
pub mod Cases
pub mod Events
pub mod Conservation
pub mod Lossless
pub mod Audio
pub mod SegmentLaws
pub mod Definite
pub mod FrameSize
