-- ===== src/Users.antt =====
-- internal/resources/mongodb/user_repository and internal/application/users: stored accounts and
-- their pages.
pub mod Document
pub mod Repository
mod Order
pub mod Pages
pub mod Listing
