-- ===== src/Udpgw.antt =====
-- internal/udpgw: the UDP gateway.
pub mod Proto
pub mod Reader
pub mod Flow
pub mod Client
pub mod Server
mod Tests
