-- ===== src/NodeController/Reading.antt =====
-- The parts of reconcileWorkload that only read the cluster and report.
use k8s_drain_surge.Base.{String, Option, none, some, List}
use k8s_drain_surge.Errors.{Result, ok, err}
use k8s_drain_surge.State.{DrainState}
use k8s_drain_surge.Kube.{Hpa, Time, ObjectRef}
use k8s_drain_surge.Session.{Effect, EventType, emit}
use k8s_drain_surge.Session.Keeps.{Preserves, Keeps-pure, keeps_rules}
use k8s_drain_surge.Workload.{Workload}
use k8s_drain_surge.Scaler.{find_matching_hpa}
use k8s_drain_surge.NodeController.Abort.{NodeReconciler}
use k8s_drain_surge.NodeController.Reconcile.{
  measure_overrun, admitted, should_process, hpa_check, hpa_allows,
}

-- A property of histories that reports do not affect is kept by them.
module _ (Q : List Effect → Type 0)
    (reports : (ref : ObjectRef) (kind : EventType) (reason : String)
      → Preserves Q (emit ref kind reason))
    (r : NodeReconciler) (wl : Workload) where
  hpa_allows-reads : (o : Result (Option Hpa)) → Preserves Q (hpa_allows r wl o)
  unfolding hpa_allows
  hpa_allows-reads (err e) = Keeps-pure _
  hpa_allows-reads (ok none) = Keeps-pure _
  hpa_allows-reads (ok (some hpa)) = search (keeps_rules, reports)

  should_process-reads : (node_name : String) → Preserves Q (should_process r wl node_name)
  unfolding should_process hpa_check find_matching_hpa
  should_process-reads node_name = search (keeps_rules, reports, hpa_allows-reads) depth 12

  pub admitted-reads :
      (node_name : String) (state : DrainState) → Preserves Q (admitted r state wl node_name)
  unfolding admitted
  admitted-reads node_name DrainState.none = should_process-reads node_name
  admitted-reads node_name _ = Keeps-pure _

  pub measure_overrun-reads :
      (start : Option Time)
      → Preserves Q (measure_overrun r.client r.config.readiness_timeout start)
  unfolding measure_overrun
  measure_overrun-reads none = Keeps-pure _
  measure_overrun-reads (some start) = search keeps_rules
