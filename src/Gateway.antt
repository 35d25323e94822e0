-- ===== src/Gateway.antt =====
-- internal/gateway: the multi-protocol front door.
pub mod Sniff
pub mod Ws
pub mod Request
pub mod Peek
pub mod Front
pub mod Handle
pub mod System
mod Tests
mod Runs
