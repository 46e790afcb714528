-- ===== src/Outbox.antt =====
-- The outbox: its documents and repository (internal/resources/mongodb/outbox_repository), and the
-- step that publishes one event (internal/application/outbox).
pub mod Document
pub mod Repository
pub mod Lifecycle
pub mod Operations
pub mod Leases
pub mod Claims
pub mod Worker
