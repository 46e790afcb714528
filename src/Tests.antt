-- ===== src/Tests.antt =====
-- Concrete inputs at which the theorems are applied.
mod Domain
mod Outbox
mod Messages
mod Requests
mod Delivery
mod Chats
mod Direct
mod Sessions
mod Auth
mod Websocket
mod Users
