-- ===== src/Ws.antt =====
-- internal/ws: the delivery of events to the connected clients.
pub mod Client
pub mod Replay
pub mod Hub
pub mod Live
pub mod Pages
mod Tests
