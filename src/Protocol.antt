-- ===== src/Protocol.antt =====
-- pkg/wsproto, internal/domain/protocol and the event names of internal/compat: what goes over the
-- WebSocket.
pub mod Event
pub mod Command
pub mod Writer
