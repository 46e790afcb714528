-- ===== src/Sessions.antt =====
-- Storing sessions: internal/resources/mongodb/session_repository.
pub mod Document
pub mod Repository
pub mod Refinement
pub mod Rotations
mod Revocations
pub mod Finality
