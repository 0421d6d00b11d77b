-- ===== src/NodeController/Refused.antt =====
-- A reconcile of the node reconciler in which the API server refuses every patch.
use k8s_drain_surge.Base.{String, Option, none, some}
use k8s_drain_surge.Base.Int.{ℤ, int32}
use k8s_drain_surge.Base.Maps.{GoMap}
use k8s_drain_surge.State.{DrainState, get_original_replicas}
use k8s_drain_surge.Kube.{Api, Hpa}
use k8s_drain_surge.Session.{Exec}
use k8s_drain_surge.Session.Keeps.{Keeps-fail, Keeps-result}
use k8s_drain_surge.Session.Refused.{Refuses, Unapplied, Inert, emit-Inert, send-Inert, inert_rules}
use k8s_drain_surge.Workload.{Workload, annotations, patch, patch_replicas_and_annotations}
use k8s_drain_surge.Scaler.{
  patch_hpa_min_replicas, find_matching_hpa, find_matching_pdb, find_pod_on_node,
  find_ready_pod_on_other_node,
}
use k8s_drain_surge.NodeController.Abort.{
  NodeReconciler, Outcome, abort_workload, restore_hpa, restore_min,
}
use k8s_drain_surge.NodeController.Handlers.{
  handle_pending, handle_scale_up, handle_wait_ready, await_ready, handle_wait_eviction,
  handle_scale_down, handle_cleanup, surge, surge_replicas, surge_hpa, with_original,
}
use k8s_drain_surge.NodeController.Reading.{admitted-reads, measure_overrun-reads}
use k8s_drain_surge.NodeController.Reconcile.{
  Overrun, in_time, timed_out, stale, dispatch, reconcile_measured, reconcile_workload,
}

module _ (c : Api) (refuses : Refuses c) where
  pub patch-Inert : (wl : Workload) → Inert (patch c wl)
  unfolding patch patch_replicas_and_annotations
  patch-Inert wl = send-Inert c _ refuses

  pub patch_hpa-Inert :
      (namespace name : String) (n : ℤ) → Inert (patch_hpa_min_replicas c namespace name n)
  unfolding patch_hpa_min_replicas
  patch_hpa-Inert namespace name n = send-Inert c _ refuses

  restore_min-Inert :
      (namespace name : String) (n : Option ℤ) → Inert (restore_min c namespace name n)
  unfolding restore_min
  restore_min-Inert namespace name none = Keeps-fail _
  restore_min-Inert namespace name (some n) = patch_hpa-Inert namespace name (int32 n)

  pub restore_hpa-Inert :
      (namespace : String) (m : GoMap String) → Inert (restore_hpa c namespace m)
  unfolding restore_hpa
  restore_hpa-Inert namespace m = search (inert_rules, restore_min-Inert)

-- The rules for an action of a client that refuses every patch.
pub ruleset refused_rules = (inert_rules, patch-Inert, patch_hpa-Inert, restore_hpa-Inert)

module _ (r : NodeReconciler) (refuses : Refuses r.client) where
  abort_workload-Inert : (wl : Workload) → Inert (abort_workload r wl)
  unfolding abort_workload
  abort_workload-Inert wl = search refused_rules

  with_original-Inert :
      (wl : Workload) (rest : ℤ → Exec Outcome)
      → ((n : ℤ) → Inert (rest n))
      → Inert (with_original r wl rest)
  with_original-Inert wl rest k =
      Keeps-result (get_original_replicas (annotations wl)) rest (abort_workload r wl)
        (abort_workload-Inert wl) k

  surge-Inert : (wl : Workload) (n : ℤ) (hpa : Option Hpa) → Inert (surge r wl n hpa)
  unfolding surge_replicas surge_hpa
  surge-Inert wl n none = search refused_rules
  surge-Inert wl n (some hpa) = search refused_rules depth 9

  handle_pending-Inert :
      (wl : Workload) (node_name : String) → Inert (handle_pending r wl node_name)
  unfolding handle_pending find_matching_pdb find_matching_hpa
  handle_pending-Inert wl node_name = search (inert_rules, surge-Inert) depth 12

  handle_scale_up-Inert : (wl : Workload) → Inert (handle_scale_up r wl)
  unfolding handle_scale_up
  handle_scale_up-Inert wl = with_original-Inert wl _ λ n. search refused_rules

  await_ready-Inert : (wl : Workload) (node_name : String) → Inert (await_ready r wl node_name)
  unfolding await_ready find_ready_pod_on_other_node
  await_ready-Inert wl node_name = search refused_rules depth 9

  handle_wait_ready-Inert :
      (wl : Workload) (node_name : String) → Inert (handle_wait_ready r wl node_name)
  unfolding handle_wait_ready
  handle_wait_ready-Inert wl node_name =
      search (refused_rules, with_original-Inert, await_ready-Inert) depth 9

  handle_wait_eviction-Inert :
      (wl : Workload) (node_name : String) → Inert (handle_wait_eviction r wl node_name)
  unfolding handle_wait_eviction find_pod_on_node
  handle_wait_eviction-Inert wl node_name = search (refused_rules, with_original-Inert) depth 9

  handle_scale_down-Inert : (wl : Workload) → Inert (handle_scale_down r wl)
  unfolding handle_scale_down
  handle_scale_down-Inert wl = with_original-Inert wl _ λ n. search refused_rules

  handle_cleanup-Inert : (wl : Workload) → Inert (handle_cleanup r wl)
  unfolding handle_cleanup
  handle_cleanup-Inert wl = search refused_rules

  dispatch-Inert :
      (state : DrainState) (wl : Workload) (node_name : String)
      → Inert (dispatch r state wl node_name)
  unfolding dispatch
  dispatch-Inert DrainState.none wl node_name = handle_pending-Inert wl node_name
  dispatch-Inert DrainState.pending wl node_name = handle_scale_up-Inert wl
  dispatch-Inert DrainState.scaled_up wl node_name = handle_wait_ready-Inert wl node_name
  dispatch-Inert DrainState.ready wl node_name = handle_wait_eviction-Inert wl node_name
  dispatch-Inert DrainState.draining wl node_name = handle_scale_down-Inert wl
  dispatch-Inert DrainState.done wl node_name = handle_cleanup-Inert wl
  dispatch-Inert (DrainState.other t) wl node_name = abort_workload-Inert wl

  reconcile_measured-Inert :
      (over : Overrun) (state : DrainState) (wl : Workload) (node_name : String)
      → Inert (reconcile_measured r over state wl node_name)
  unfolding reconcile_measured
  reconcile_measured-Inert stale state wl node_name = search (inert_rules, abort_workload-Inert)
  reconcile_measured-Inert timed_out state wl node_name = search (inert_rules, abort_workload-Inert)
  reconcile_measured-Inert in_time state wl node_name =
      search (inert_rules, admitted-reads Unapplied emit-Inert r wl, dispatch-Inert)

  pub reconcile_workload-Inert :
      (wl : Workload) (node_name : String) → Inert (reconcile_workload r wl node_name)
  unfolding reconcile_workload
  reconcile_workload-Inert wl node_name =
      search
        (inert_rules, measure_overrun-reads Unapplied emit-Inert r wl, reconcile_measured-Inert)
