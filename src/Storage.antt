-- ===== src/Storage.antt =====
-- internal/adapter/outbound/storage: where the records of calls are written.
pub mod Writers
pub mod Laws
