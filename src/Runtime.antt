-- ===== src/Runtime.antt =====
-- pkg/handlers: the handlers of the runtime inside a sandbox.
pub mod Projects
pub mod Sidecar
pub mod Guard
mod Tests
