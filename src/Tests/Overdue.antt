-- ===== src/Tests/Overdue.antt =====
-- A witness for the end of an overdue drain: 700 seconds later, the drain from node n1 is over time.
use k8s_drain_surge.Base.{String, ◌≡◌, refl, true, none, some, arith, if◌then◌else◌}
use k8s_drain_surge.Base.Int.{pos, ◌+ℤ◌, ◌-ℤ◌, ◌<ℤ◌, wrap}
use k8s_drain_surge.Strconv.{itoa, atoi, decimal, digit}
use k8s_drain_surge.Config.{default_config}
use k8s_drain_surge.State.{drain_state, is_active, parse_drain_start, parse_rfc3339_annotation}
use k8s_drain_surge.Kube.{Api}
use k8s_drain_surge.Session.{send, ◌>>=◌}
use k8s_drain_surge.Workload.{
  annotations, is_stable, progressed, can_surge, get_pod_selector, selector_from_label_selector,
  patch, patch_replicas_and_annotations, annotation_patch,
}
use k8s_drain_surge.Workload.Patching.{is_owned, stored, apply_effect}
use k8s_drain_surge.Scaler.{
  find_matching_hpa, first_hpa, find_matching_pdb, any_pdb_covers, pdb_covers, requirements_match,
  requirements_found, requirement_found,
}
use k8s_drain_surge.RestartDetect.{sub_time}
use k8s_drain_surge.NodeController.Abort.{NodeReconciler}
use k8s_drain_surge.NodeController.Handlers.{surge_started, surge_replicas, handle_pending}
use k8s_drain_surge.NodeController.Reconcile.{
  state_of, reconcile_workload, measure_overrun, reconcile_measured, admitted, should_process,
  hpa_check, hpa_allows, dispatch,
}
use k8s_drain_surge.NodeController.Lifecycle.Refinement.{stored_after}
use k8s_drain_surge.NodeController.Overdue.{overdue_drain-ends}
use k8s_drain_surge.Tests.{cluster, merge_patch, server}
use k8s_drain_surge.Tests.Drains.{started, starts, starts_scaled_up}

abbrev late_cluster : Api
late_cluster = record cluster { now = λ n. pos 1400000000000 }

abbrev late_reconciler : NodeReconciler
late_reconciler = record { client = late_cluster; config = default_config }

under_way : is_active (state_of started) ≡ true
under_way = rw starts_scaled_up refl

since : parse_drain_start atoi (annotations started) ≡ some (pos 700000000000)
unfolding reconcile_workload measure_overrun reconcile_measured admitted should_process is_stable
    progressed can_surge hpa_check hpa_allows find_matching_hpa first_hpa dispatch handle_pending
    find_matching_pdb any_pdb_covers pdb_covers requirements_match requirements_found
    requirement_found get_pod_selector selector_from_label_selector surge_started surge_replicas
    patch patch_replicas_and_annotations annotation_patch send stored apply_effect ◌+ℤ◌ wrap itoa
    atoi decimal digit parse_drain_start parse_rfc3339_annotation drain_state ◌>>=◌
since = refl

too_long : pos 600000000000 <ℤ sub_time (pos 1400000000000) (pos 700000000000)
unfolding sub_time ◌-ℤ◌
too_long = omega arith

overdue_drain-ends_example :
    let after = stored_after merge_patch late_reconciler started "n2" 0 server in
    (after.replicas ≡ some (pos 1))
    × ((k : String)
        → after.annotations k ≡ (
            if is_owned k
            then none
            else elim (annotations started k) [ some v ↦ some v | none ↦ server.annotations k ]))
overdue_drain-ends_example =
    overdue_drain-ends merge_patch late_reconciler started "n2" 0 server (pos 700000000000) starts
      under_way since too_long (λ k w. refl)
