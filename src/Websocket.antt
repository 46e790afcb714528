-- ===== src/Websocket.antt =====
-- internal/drivers/websocket: the realtime connections and the gateway that counts them.
pub mod Connection
pub mod Queue
pub mod Gateway
mod Counts
pub mod Limits
