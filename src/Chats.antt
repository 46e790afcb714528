-- ===== src/Chats.antt =====
-- internal/resources/mongodb/chat_repository, and create_direct.go of internal/application/chats.
pub mod Document
pub mod Repository
pub mod Roundtrip
pub mod Pairs
pub mod Direct
pub mod CreateDirect
pub mod Addressed
pub mod Wired
pub mod Partners
pub mod Listing
