-- ===== src/Tests/Restarts.antt =====
-- Witnesses for the rollout reconciler, on one Rollout that is restarted and drained.
use k8s_drain_surge.Base.{◌≡◌, ◌≢◌, ◌⊎◌, refl, true, none, some, List, [], arith, if◌then◌else◌}
use k8s_drain_surge.Base.Int.{pos, ◌<ℤ◌, ◌-ℤ◌, wrap}
use k8s_drain_surge.Errors.{ok}
use k8s_drain_surge.Strconv.{atoi}
use k8s_drain_surge.State.{
  drain_state, is_active, annotation_drain_state, annotation_original_replicas, mem_key,
  restart_surge_exclusive_keys, restart_surge_full_keys, parse_restart_surge_start,
  parse_rfc3339_annotation, get_original_replicas,
}
use k8s_drain_surge.Kube.{Pod, Rollout}
use k8s_drain_surge.Session.{send, ◌>>=◌}
use k8s_drain_surge.Workload.{
  rollout, annotations, object_ref, patch, patch_replicas_and_annotations,
}
use k8s_drain_surge.Workload.Patching.{stored}
use k8s_drain_surge.Scaler.{is_pod_ready}
use k8s_drain_surge.Base.Lists.{AtLeast}
use k8s_drain_surge.RestartDetect.{sub_time}
use k8s_drain_surge.RestartDetect.Stuck.{HasReached, IsReplaced}
use k8s_drain_surge.NodeController.Abort.{finished, restore_hpa, restore_min}
use k8s_drain_surge.RolloutController.Abort.{yield_to_drain, abort_restart_surge}
use k8s_drain_surge.RolloutController.Handlers.{
  await_two_ready, ready_count, handle_restart_wait_for_argo, scale_down_after_restart,
}
use k8s_drain_surge.RolloutController.Reconcile.{reconcile_restart, restart_state_of}
use k8s_drain_surge.RolloutController.Yield.{yield_to_drain-keeps, abort_restart_surge-clears}
use k8s_drain_surge.RolloutController.Timeouts.{reconcile_restart-overrun, overrun-loses_replicas}
use k8s_drain_surge.RolloutController.Safety.{
  IsServing, await_two_ready-acts, handle_restart_wait_for_argo-acts,
}
use k8s_drain_surge.Tests.{
  two_pods, session, rollout_reconciler, surging_in, web_rollout, merge_patch, server, cluster,
}

abbrev both : Rollout
both = web_rollout (surging_in "ready")

yields : (yield_to_drain rollout_reconciler both session).0 ≡ ok finished
unfolding yield_to_drain patch patch_replicas_and_annotations send ◌>>=◌
yields = refl

yield_to_drain-keeps_example :
    (stored merge_patch
        (object_ref (rollout both))
        server
        (yield_to_drain rollout_reconciler both session).1.history).annotations
      annotation_original_replicas
    ≡ (if mem_key restart_surge_exclusive_keys annotation_original_replicas
        then none
        else annotations (rollout both) annotation_original_replicas)
yield_to_drain-keeps_example =
    yield_to_drain-keeps merge_patch rollout_reconciler both server session
      annotation_original_replicas yields refl

aborts : (abort_restart_surge rollout_reconciler both session).0 ≡ ok finished
unfolding abort_restart_surge restore_hpa restore_min patch patch_replicas_and_annotations send
    ◌>>=◌
aborts = refl

abort_restart_surge-clears_example :
    (stored merge_patch
        (object_ref (rollout both))
        server
        (abort_restart_surge rollout_reconciler both session).1.history).annotations
      annotation_drain_state
    ≡ (if mem_key restart_surge_full_keys annotation_drain_state
        then none
        else annotations (rollout both) annotation_drain_state)
abort_restart_surge-clears_example =
    abort_restart_surge-clears merge_patch rollout_reconciler both server session
      annotation_drain_state aborts refl

surging : is_active (restart_state_of both) ≡ true
unfolding drain_state
surging = refl

since : parse_restart_surge_start cluster.parse_rfc3339 (annotations (rollout both)) ≡ some (pos 0)
unfolding parse_restart_surge_start parse_rfc3339_annotation atoi
since = refl

late : pos 600000000000 <ℤ sub_time (pos 700000000000) (pos 0)
unfolding sub_time ◌-ℤ◌
late = ground arith

gives_up : (reconcile_restart rollout_reconciler both session).0 ≡ ok finished
unfolding abort_restart_surge restore_hpa restore_min patch patch_replicas_and_annotations send
    ◌>>=◌
gives_up =
    rw (reconcile_restart-overrun rollout_reconciler both session (pos 0) surging since late) refl

overrun-loses_replicas_example :
    let after =
      stored merge_patch
        (object_ref (rollout both))
        server
        (reconcile_restart rollout_reconciler both session).1.history in
    (after.annotations annotation_drain_state ≡ annotations (rollout both) annotation_drain_state)
    × (after.annotations annotation_original_replicas ≡ none)
overrun-loses_replicas_example =
    overrun-loses_replicas rollout_reconciler both session (pos 0) merge_patch server surging since
      late gives_up

two_ready : (await_two_ready rollout_reconciler both session).1.history ≢ []
unfolding await_two_ready ready_count is_pod_ready patch patch_replicas_and_annotations send ◌>>=◌
two_ready e = cc

await_two_ready-acts_example :
    (pods : List Pod) × (ok two_pods ≡ ok pods) × AtLeast 2 IsServing pods
await_two_ready-acts_example = await_two_ready-acts rollout_reconciler both session two_ready

argo_done : (handle_restart_wait_for_argo rollout_reconciler both session).1.history ≢ []
unfolding handle_restart_wait_for_argo scale_down_after_restart restore_hpa restore_min
    get_original_replicas atoi wrap patch patch_replicas_and_annotations send ◌>>=◌
argo_done e = cc

handle_restart_wait_for_argo-acts_example :
    HasReached both ⊎ ((pods : List Pod) × (ok two_pods ≡ ok pods) × IsReplaced both pods)
handle_restart_wait_for_argo-acts_example =
    handle_restart_wait_for_argo-acts rollout_reconciler both session argo_done
