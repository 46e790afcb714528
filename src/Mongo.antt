-- ===== src/Mongo.antt =====
-- The MongoDB driver as the repositories under internal/resources/mongodb call it. The server is
-- not part of the repository: a collection is an interface of calls with the documented outcome
-- of each, over a state of the server's own of which only the documents are looked at.
mod Outcomes
mod Sorting
mod Interface
mod Members
mod Memory
mod Upserting
unfoldable pub use Outcomes.*
unfoldable pub use Sorting.*
unfoldable pub use Interface.*
unfoldable pub use Members.*
unfoldable pub use Memory.*
unfoldable pub use Upserting.*
