-- ===== src/Gateway.antt =====
-- HTTP to and from the gateway: the requests that its adapters send, and the handlers beside calls.
pub mod Http
pub mod HttpLaws
pub mod Ice
pub mod IceLaws
pub mod LlmProxy
pub mod LlmProxyLaws
pub mod Silero
pub mod Admin
pub mod AdminLaws
