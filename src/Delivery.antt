-- ===== src/Delivery.antt =====
-- Delivering created messages to the clients: internal/application/delivery and
-- internal/drivers/worker/delivery_runner.
pub mod Dispatch
pub mod Notifications
pub mod Runner
pub mod Endings
