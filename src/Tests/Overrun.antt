-- ===== src/Tests/Overrun.antt =====
-- A witness for the end of an overdue restart-surge: 700 seconds after its start it is over time.
use k8s_drain_surge.Base.{◌≡◌, refl, true, none, some, [], arith, if◌then◌else◌}
use k8s_drain_surge.Base.Int.{pos, ◌+ℤ◌, ◌-ℤ◌, ◌<ℤ◌, wrap}
use k8s_drain_surge.Strconv.{itoa, atoi, decimal, digit}
use k8s_drain_surge.Config.{default_config}
use k8s_drain_surge.State.{
  DrainState, drain_state, is_active, parse_restart_surge_start, parse_rfc3339_annotation, mem_key,
  restart_surge_full_keys, annotation_restart_surge_state,
}
use k8s_drain_surge.Kube.{Api, Rollout}
use k8s_drain_surge.Session.{send, ◌>>=◌}
use k8s_drain_surge.Workload.{
  rollout, annotations, object_ref, is_stable_for_restart, can_surge, get_pod_selector,
  selector_from_label_selector, patch, patch_replicas_and_annotations, annotation_patch,
}
use k8s_drain_surge.Workload.Patching.{stored, apply_effect}
use k8s_drain_surge.Scaler.{
  find_matching_hpa, first_hpa, find_matching_pdb, any_pdb_covers, pdb_covers, requirements_match,
  requirements_found, requirement_found,
}
use k8s_drain_surge.RestartDetect.{sub_time, is_restart_stuck, has_older_pod}
use k8s_drain_surge.NodeController.Reconcile.{state_of}
use k8s_drain_surge.NodeController.Reachable.{view}
use k8s_drain_surge.RolloutController.Abort.{RolloutReconciler}
use k8s_drain_surge.RolloutController.Handlers.{
  handle_restart_pending, start_restart_surge, restart_surge_started, restart_surge_replicas,
}
use k8s_drain_surge.RolloutController.Reconcile.{
  restart_state_of, reconcile_restart, measure_restart_overrun, restart_measured, restart_dispatch,
}
use k8s_drain_surge.Sharing.Runs.{SharedRun, fresh, acted, surge, effects}
use k8s_drain_surge.Sharing.Overdue.{overdue_surge-ends}
use k8s_drain_surge.Tests.{cluster, merge_patch, server}
use k8s_drain_surge.Tests.Surging.{restarting}
use k8s_drain_surge.Tests.Sharing.{here}

-- The Rollout after the reconciler has started its restart-surge.
abbrev surging : Rollout
surging = record restarting {
  object_meta = record restarting.object_meta {
    annotations =
        (stored merge_patch (object_ref (rollout restarting)) (view (rollout restarting))
          (effects default_config here surge restarting)).annotations;
  };
}

no_drain : state_of (rollout restarting) ≡ DrainState.none
unfolding drain_state
no_drain = refl

no_surge : restart_state_of restarting ≡ DrainState.none
unfolding drain_state
no_surge = refl

starts : SharedRun merge_patch default_config restarting
starts = fresh restarting no_drain no_surge refl

surges : SharedRun merge_patch default_config surging
surges = acted surge here restarting restarting surging starts starts tt (λ k owned. refl)

abbrev late_cluster : Api
late_cluster = record cluster { now = λ n. pos 1400000000000 }

abbrev late_reconciler : RolloutReconciler
late_reconciler = record { client = late_cluster; config = default_config; now = none }

under_way : is_active (restart_state_of surging) ≡ true
unfolding reconcile_restart measure_restart_overrun restart_measured restart_dispatch
    handle_restart_pending can_surge is_restart_stuck has_older_pod sub_time ◌-ℤ◌
    is_stable_for_restart start_restart_surge find_matching_pdb any_pdb_covers pdb_covers
    requirements_match requirements_found requirement_found get_pod_selector
    selector_from_label_selector find_matching_hpa first_hpa restart_surge_started
    restart_surge_replicas patch patch_replicas_and_annotations annotation_patch send stored
    apply_effect ◌+ℤ◌ wrap itoa atoi decimal digit drain_state ◌>>=◌
under_way = refl

since : parse_restart_surge_start atoi (annotations (rollout surging)) ≡ some (pos 700000000000)
unfolding reconcile_restart measure_restart_overrun restart_measured restart_dispatch
    handle_restart_pending can_surge is_restart_stuck has_older_pod sub_time ◌-ℤ◌
    is_stable_for_restart start_restart_surge find_matching_pdb any_pdb_covers pdb_covers
    requirements_match requirements_found requirement_found get_pod_selector
    selector_from_label_selector find_matching_hpa first_hpa restart_surge_started
    restart_surge_replicas patch patch_replicas_and_annotations annotation_patch send stored
    apply_effect ◌+ℤ◌ wrap itoa atoi decimal digit drain_state parse_restart_surge_start
    parse_rfc3339_annotation ◌>>=◌
since = refl

too_long : pos 600000000000 <ℤ sub_time (pos 1400000000000) (pos 700000000000)
unfolding sub_time ◌-ℤ◌
too_long = omega arith

overdue_surge-ends_example :
    let after =
      stored merge_patch
        (object_ref (rollout surging))
        server
        (reconcile_restart late_reconciler surging
          (record { calls = 0; history = [] })).1.history in
    (after.replicas ≡ some (pos 1))
    × (after.annotations annotation_restart_surge_state ≡ (
        if mem_key restart_surge_full_keys annotation_restart_surge_state
        then none
        else annotations (rollout surging) annotation_restart_surge_state))
overdue_surge-ends_example =
    overdue_surge-ends merge_patch late_reconciler surging 0 server (pos 700000000000)
      annotation_restart_surge_state surges under_way since too_long (λ k w. refl) refl
