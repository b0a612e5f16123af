-- ===== src/Tunnel.antt =====
-- pkg/tunnel: what the two ends of a tunnel share.
pub mod Backoff
mod Tests
