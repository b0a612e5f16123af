-- ===== src/Provisioner.antt =====
-- pkg/provisioner: the process of a cluster that creates sandboxes, deletes them when their time is
-- over, and frees what builds and deployments leave behind.
pub mod Gc
pub mod Resources
pub mod Egress
pub mod Volumes
pub mod Expiry
pub mod Backend
pub mod Mock
pub mod Reaper
pub mod Names
pub mod Sandboxes
pub mod Quiesce
pub mod Lockfile
mod Tests
pub mod Lifecycle
pub mod Snapshots
use agentry.Base.{ℕ, Text}

-- An answer over HTTP: a value that `writeJSON` writes, or the message of `writeError`.
pub data Reply {ℓ} (A : Type ℓ) : Type ℓ where
  writes_json : ℕ → A → Reply A
  writes_error : ℕ → Text → Reply A
