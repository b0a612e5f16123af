-- ===== src/Bridge.antt =====
-- pkg/bridge: the routing pivot between devices, clusters and the control plane.
pub mod Identity
pub mod State
pub mod Handshake
pub mod Sessions
pub mod Proxy
pub mod Endpoints
pub mod Revocation
pub mod Tenancy
pub mod Isolation
pub mod Cookies
pub mod Routes
pub mod Deploy
mod Tests
