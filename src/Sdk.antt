-- ===== src/Sdk.antt =====
-- sdk/go: the client of the gateway.
pub mod Client
pub mod Calls
pub mod ClientLaws
