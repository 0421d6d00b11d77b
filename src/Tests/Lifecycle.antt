-- ===== src/Tests/Lifecycle.antt =====
-- A whole drain of one Deployment: the states that it goes through, and how it ends.
use k8s_drain_surge.Base.{◌≡◌, refl, Option, some}
use k8s_drain_surge.Base.Int.{ℤ, pos, int32, int64, ◌+ℤ◌, ◌-ℤ◌, wrap}
use k8s_drain_surge.Strconv.{atoi, itoa, decimal, digit}
use k8s_drain_surge.State.{
  DrainState, drain_state, clear_drain_annotations, get_original_replicas, parse_drain_start,
  parse_rfc3339_annotation,
}
use k8s_drain_surge.Session.{◌>>=◌, send}
use k8s_drain_surge.Workload.{
  Workload, deployment, object_ref, is_stable, progressed, can_surge, get_pod_selector,
  selector_from_label_selector, annotation_patch, patch, patch_replicas_and_annotations,
}
use k8s_drain_surge.Workload.Patching.{Stored, stored, apply_effect}
use k8s_drain_surge.Scaler.{
  find_matching_hpa, first_hpa, find_matching_pdb, any_pdb_covers, pdb_covers, requirements_match,
  requirements_found, requirement_found, find_pod_on_node, on_node, find_ready_pod_on_other_node,
  ready_elsewhere, is_pod_ready,
}
use k8s_drain_surge.RestartDetect.{sub_time}
use k8s_drain_surge.NodeController.Abort.{restore_hpa, restore_min}
use k8s_drain_surge.NodeController.Handlers.{
  handle_pending, surge_started, surge_replicas, handle_wait_ready, await_ready,
  handle_wait_eviction, handle_scale_down, handle_cleanup,
}
use k8s_drain_surge.NodeController.Reconcile.{
  state_of, reconcile_workload, measure_overrun, overrun, reconcile_measured, admitted,
  should_process, hpa_check, hpa_allows, dispatch,
}
use k8s_drain_surge.Tests.{session, node_reconciler, opted_in, web, merge_patch}

-- The Deployment as the server holds it.
abbrev held : Stored → Workload
held st = deployment (record (web st.annotations) { replicas = st.replicas })

-- One reconcile of it for node n1, and the patches that follow from that.
step : Stored → Stored
unfolding reconcile_workload measure_overrun overrun reconcile_measured admitted should_process
    is_stable progressed can_surge hpa_check hpa_allows find_matching_hpa first_hpa dispatch
    handle_pending find_matching_pdb any_pdb_covers pdb_covers requirements_match requirements_found
    requirement_found get_pod_selector selector_from_label_selector surge_started surge_replicas
    handle_wait_ready await_ready find_ready_pod_on_other_node ready_elsewhere is_pod_ready
    handle_wait_eviction find_pod_on_node on_node restore_hpa restore_min handle_scale_down
    handle_cleanup clear_drain_annotations get_original_replicas parse_drain_start
    parse_rfc3339_annotation sub_time patch patch_replicas_and_annotations annotation_patch send
    stored apply_effect drain_state ◌+ℤ◌ ◌-ℤ◌ wrap atoi itoa decimal digit ◌>>=◌
step st =
    stored merge_patch (object_ref (held st)) st
      (reconcile_workload node_reconciler (held st) "n1" session).1.history

abbrev idle : Stored
idle = record { replicas = some (pos 1); annotations = opted_in }

abbrev summary : Stored → DrainState × Option ℤ
summary st = (state_of (held st), st.replicas)

surges : summary (step idle) ≡ (DrainState.scaled_up, some (pos 2))
unfolding step int32 int64
surges = refl

becomes_ready : summary (step (step idle)) ≡ (DrainState.ready, some (pos 2))
unfolding step int32 int64
becomes_ready = refl

scales_down : summary (step (step (step idle))) ≡ (DrainState.draining, some (pos 1))
unfolding step int32 int64
scales_down = refl

completes : summary (step (step (step (step idle)))) ≡ (DrainState.done, some (pos 1))
unfolding step int32 int64
completes = refl

ends : summary (step (step (step (step (step idle))))) ≡ (DrainState.none, some (pos 1))
unfolding step int32 int64
ends = refl
