-- ===== src/Session.antt =====
-- internal/app/session: a call's session, its registry and its commands.
pub mod State
pub mod Track
pub mod TrackLaws
pub mod Router
pub mod Manager
pub mod OrderLaws
pub mod ManagerLaws
pub mod RouterLaws
pub mod Lifecycle
pub mod Registry
pub mod RegistryLaws
pub mod Listing
pub mod GoneLaws
pub mod Snapshot
