-- ===== src/Domain/Timeline.antt =====
-- internal/domain/timeline: the items of a chat's timeline, their contents and identities.
mod Content
mod Identity
mod Items
pub mod Contents
pub mod Identities
unfoldable pub use Content.*
unfoldable pub use Identity.*
unfoldable pub use Items.*
