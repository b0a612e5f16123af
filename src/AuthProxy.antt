-- ===== src/AuthProxy.antt =====
-- cmd/authproxy: the sign-in sidecar of a deployed app.
pub mod Lockout
pub mod RateLimit
pub mod Request
pub mod SameOrigin
pub mod Signed
pub mod Session
pub mod Csrf
pub mod Store
pub mod Handlers
pub mod Password
mod Tests
pub mod Proxy
