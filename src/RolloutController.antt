-- ===== src/RolloutController.antt =====
-- internal/controller/rollout_controller.go: the reconciler of Argo Rollouts, which drives
-- restart-surge. `Abort` has the ways back, `Handlers` one function for each state, `Reconcile` the
-- dispatch, and `Watch` the recovery scan and the functions of the watches.
pub mod Abort
pub mod Handlers
pub mod Reconcile
pub mod Watch
pub mod Setup
pub mod Yield
pub mod Lifecycle
pub mod Progress
pub mod Timeouts
pub mod Refused
pub mod Safety
pub mod Filtering
pub mod Recovering
pub mod Scanning
pub mod Asking
