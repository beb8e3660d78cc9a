-- ===== src/Manager/Outcome.antt =====
-- internal/vmmanager/manager.go: the ways in which Create and Destroy can end, the cases by which
-- the proofs about them go.
mod Admit
mod Create
mod Destroy
pub use Admit.*
pub use Create.*
pub use Destroy.*
