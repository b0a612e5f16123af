-- ===== src/Shell.antt =====
-- pkg/shell: the log buffers and the background commands of the sandbox runtime.
pub mod Ring
pub mod Background
mod Tests
