-- ===== src/Tests.antt =====
-- Runs at concrete inputs: each theorem with hypotheses at an input that meets them, and tests.
mod Codec
mod Media
mod Session
mod Router
mod Manager
mod Asr
mod Call
mod Aliyun
mod Sdk
mod Serve
mod Native
mod Gateway
mod Talk
