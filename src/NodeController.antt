-- ===== src/NodeController.antt =====
-- internal/controller/node_controller.go: the reconciler of nodes, which drives drain-surge.
-- `Abort` has the way back, `Handlers` one function for each state, `Reconcile` the dispatch and
-- the loops over workloads, and `Orphans` the recovery scan and the watches.
pub mod Abort
pub mod Handlers
pub mod Reconcile
pub mod Orphans
pub mod Setup
pub mod Collecting
pub mod Stalling
pub mod Putting
pub mod Indexing
pub mod Admission
pub mod Reading
pub mod Refused
pub mod Recorded
pub mod Reachable
pub mod Timeouts
pub mod Undo
pub mod Lifecycle
pub mod Progress
pub mod Managed
pub mod Overdue
pub mod Safety
pub mod Taints
pub mod Scanning
pub mod Requeue
pub mod Restoring
pub mod Every
pub mod Colliding
pub mod Ordering
pub mod Ending
pub mod Finishing
