-- ===== src/Domain.antt =====
-- internal/domain: the entities and their validation.
pub mod User
pub mod Chat
pub mod Session
pub mod Timeline
