-- ===== src/Lib.antt =====
-- k8s-drain-surge: a Kubernetes controller that surges single-replica workloads while their node is
-- drained, or while Argo Rollouts restarts their pods, and scales them back afterwards.
--
-- The program has two reconcilers that keep their whole state in annotations of the workload:
-- - the node reconciler (internal/controller/node_controller.go) is called for a node; it collects the
--   workloads with pods on a tainted node and takes each one through the states none, scaled-up,
--   ready, draining, done; for a node without the taint it aborts the drains that name it;
-- - the rollout reconciler (internal/controller/rollout_controller.go) is called for a Rollout and
--   takes a restart that is stuck through the same states, under keys of its own, and yields to a
--   drain of the same Rollout.
-- Both share the workload abstraction and its merge patch, the lookups in the cluster, and the
-- annotations. They meet in the annotations only, some of which belong to both.
--
-- Files and the code that they model:
-- - Base, Base/Int, Base/Maps, Base/Lists: Boolean tests, int32 and int64 with their wrap-around, Go
--   maps, lists;
--   Errors: error values; Strconv, Strconv/RoundTrip: strconv.Itoa and strconv.Atoi.
-- - Config: internal/config/config.go. State: internal/controller/state.go.
-- - Workload: internal/controller/workload.go. Scaler: internal/controller/scaler.go.
--   RestartDetect: internal/controller/restart_detect.go.
-- - Kube: the API objects, and the record Api of everything outside the repository (API server and
--   cache, clock, time formats, label selectors). Its answers depend on the position of the call in
--   the run, so that a statement for every Api covers failing calls, stale caches and changes between
--   two calls. Workload/Patching has MergePatch, the server's merge of annotations, with the law of
--   RFC 7386 that the patches rely on.
-- - Session: the actions of one run; a run keeps the number of its calls and the history of the
--   patches (taken or refused) and events. A Go function that returns an error is an action of Exec,
--   in which the statements follow one another as in the source. Session/Keeps: invariants of actions;
--   Session/Refused, NodeController/Refused, RolloutController/Refused: runs in an outage of the API
--   server; Session/Retries: steps that are tried again.
-- - NodeController/Abort, Handlers, Reconcile, Orphans: the node reconciler, a function for each
--   method; a method's inner block that is used by proofs has a function of its own (await_ready is
--   the second half of handleWaitReady, reconcile_measured is reconcileWorkload after the timeout
--   tests). RolloutController/Abort, Handlers, Reconcile, Watch: the same for the rollout reconciler.
-- - NodeController/Setup and RolloutController/Setup: SetupWithManager, as the list of what it
--   registers. Startup, Startup/Options: cmd/controller/main.go. Manager: the part of
--   controller-runtime that these use, a parameter like Api.
-- - NodeController/Recorded and its children: what reconcileWorkload keeps of the annotations, over an
--   interface of the laws that such a property needs (Bookkeeping). Reachable uses it for the record of
--   a drain in runs of the node reconciler; Sharing and its children for the annotations that both
--   reconcilers share, in runs of both.
-- - NodeController/Lifecycle and its children: the abstract machine of a drain (Follows), patches as
--   moves of it. RolloutController/Lifecycle and
--   Sharing/Refinement: the same machine for a restart-surge.
-- - NodeController/Progress and its children: the progress of a drain without an HPA, by rounds of one
--   reconcile each, in a cluster that is ready for the next state; NodeController/Managed and its
--   children: that of a drain with an HPA, whose minReplicas are followed too (minimum_after);
--   RolloutController/Progress and its children: that of a restart-surge without an HPA, where each
--   round has the status that Argo reports by then. NodeController/Overdue and Sharing/Overdue: what
--   is over time. NodeController/Scanning and RolloutController/Scanning: the recovery scans.
-- - The other files of NodeController and RolloutController, and Config/Validation, State/Clearing,
--   State/Replicas, Scaler/Matching, Scaler/Budgets, Scaler/Owners and its child, RestartDetect/Stuck,
--   Startup/Exits, hold proofs. The children of NodeController/Collecting have what Reconcile collects.
--   Tests and its children hold a small cluster and the theorems applied to it.
--
-- Conventions. An object is a value: a method that edits the object it was given is a function to the
-- edited object. DrainState is a data type with a constructor for every other text. A workload's
-- annotations are the function that a lookup computes, so a nil map and an empty one are the same.
-- Times are nanoseconds since the epoch. Requeue delays are in nanoseconds, 0 for none. The text of an
-- event is its reason, and an error keeps its format string without operands. Loops are structural
-- recursion over the listed objects, so there is no fuel. Where Go ranges over a map, NodeReconciler's
-- Reconcile and abortWorkloadsForNode take the order as a parameter.
--
-- Not modelled: logging and the constants for its fields (internal/controller/logfields.go but the
-- index names), the type scheme, the JSON text of a patch, the resource version and conflict handling
-- of the API server, the queues and the five concurrent workers of a controller (two reconciles of one
-- workload are steps one after the other, each from a cached copy that may be old), and the election,
-- which only delays the recovery scans.
pub mod Base
pub mod Errors
pub mod Strconv
pub mod Config
pub mod State
pub mod Kube
pub mod Session
pub mod Workload
pub mod Scaler
pub mod RestartDetect
pub mod NodeController
pub mod RolloutController
pub mod Sharing
pub mod Manager
pub mod Startup
pub mod Tests
