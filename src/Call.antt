-- ===== src/Call.antt =====
-- internal/adapter/inbound/http: the handler of a call.
pub mod Handler
pub mod Setup
pub mod Serve
pub mod HandlerLaws
pub mod KeepLaws
pub mod LiveLaws
pub mod ServeLaws
pub mod Records
pub mod Archive
pub mod SessionId
pub mod Audio
pub mod AudioLaws
pub mod Talk
pub mod TalkLaws
pub mod EndLaws
pub mod LoopLaws
pub mod KillLaws
