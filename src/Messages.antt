-- ===== src/Messages.antt =====
-- Creating messages: internal/resources/mongodb/message_store and internal/application/messages.
pub mod Document
pub mod Roundtrip
pub mod Database
pub mod Store
pub mod Creation
pub mod Transaction
pub mod Outcome
pub mod Consistency
pub mod Newest
pub mod Resubmission
pub mod Request
pub mod UseCase
pub mod Requests
