-- ===== src/Manager.antt =====
-- internal/vmmanager/manager.go: the slot and capacity model and the life cycle of VMs.
pub mod State
pub mod Admission
pub mod Meta
pub mod Lifecycle
pub mod Queries
pub mod Reap
pub mod Reconcile
pub mod Outcome
pub mod FreeSlot
pub mod Totals
pub mod MapOrder
pub mod Slots
pub mod Budget
pub mod Interleaving
pub mod Growth
pub mod Runs
