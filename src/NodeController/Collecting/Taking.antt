-- ===== src/NodeController/Collecting/Taking.antt =====
-- The workloads that Reconcile works on for a tainted node: from its pods, and from the drains that
-- name it.
use k8s_drain_surge.Session.{Session}
use k8s_drain_surge.Workload.{Workload}
