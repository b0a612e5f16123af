-- ===== src/AuthProxy/Handlers.antt =====
-- cmd/authproxy/handlers.go and handlers_reset.go: the handlers of the sign-in pages.
pub mod State
pub mod Mails
pub mod Login
pub mod Signup
pub mod Reset
pub mod Admission
pub mod Lockouts
pub mod Resets
