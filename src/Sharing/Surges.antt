-- ===== src/Sharing/Surges.antt =====
-- The handlers of the rollout reconciler and the annotations that the two reconcilers share.
use k8s_drain_surge.Base.{String, ◌≢◌, Bool, true, false, if◌then◌else◌}
use k8s_drain_surge.Base.Int.{ℤ}
use k8s_drain_surge.State.{
  DrainState, drain_state, annotation_restart_surge_state, get_original_replicas,
  clear_restart_surge_annotations,
}
use k8s_drain_surge.Kube.{Rollout}
use k8s_drain_surge.Session.{Exec}
use k8s_drain_surge.Session.Keeps.{Keeps, Keeps-result, keeps_rules}
use k8s_drain_surge.Workload.{Workload, rollout, annotations, set_replicas, set_annotations}
use k8s_drain_surge.NodeController.Abort.{Outcome}
use k8s_drain_surge.NodeController.Handlers.{annotate}
use k8s_drain_surge.NodeController.Recorded.{IsKnown, Fine, recorded_rules}
use k8s_drain_surge.NodeController.Recorded.Laws.{drain_state-IsKnown}
use k8s_drain_surge.RolloutController.Abort.{
  RolloutReconciler, abort_restart_surge, yield_to_drain, restart_aborted, yielded,
}
use k8s_drain_surge.RolloutController.Handlers.{
  handle_restart_scale_up, handle_restart_wait_ready, await_two_ready, handle_restart_wait_for_argo,
  scale_down_after_restart, handle_restart_scale_down, handle_restart_cleanup,
  restart_with_original,
}
use k8s_drain_surge.RolloutController.Reconcile.{restart_state_of}
use k8s_drain_surge.RolloutController.Yield.{annotations-restart_aborted, annotations-yielded}
use k8s_drain_surge.Sharing.{
  IsShared, surge_restated-IsShared, surge_cleared-IsShared, yielded-IsShared,
}

-- An object of the Rollout whose annotations keep what is shared.
abbrev pub Kept : Workload → Type 0
Kept wl = IsShared (annotations wl)

aborted-Kept : (ro : Rollout) → Kept (rollout ro) → Kept (restart_aborted (rollout ro))
aborted-Kept ro h = rw (annotations-restart_aborted ro) (surge_cleared-IsShared _ h)

yielded-Kept : (ro : Rollout) → Kept (rollout ro) → Kept (yielded (rollout ro))
yielded-Kept ro h = rw (annotations-yielded ro) (yielded-IsShared _ h)

cleared-Kept :
    (ro : Rollout)
    → Kept (rollout ro)
    → Kept
        (set_annotations (clear_restart_surge_annotations (annotations (rollout ro))) (rollout ro))
unfolding clear_restart_surge_annotations
cleared-Kept ro h = surge_cleared-IsShared _ h

restated-Kept :
    (t : String) (ro : Rollout)
    → Kept (rollout ro)
    → restart_state_of ro ≢ DrainState.none
    → IsKnown (drain_state t)
    → Kept (annotate annotation_restart_surge_state t (rollout ro))
restated-Kept t ro h active known = surge_restated-IsShared t _ h active known

resized-Kept :
    (test : Bool) (n : ℤ) (t : String) (ro : Rollout)
    → Kept (rollout ro)
    → restart_state_of ro ≢ DrainState.none
    → IsKnown (drain_state t)
    → Kept (
        annotate annotation_restart_surge_state t
          (if test then set_replicas n (rollout ro) else rollout ro))
resized-Kept true n t ro h active known = surge_restated-IsShared t _ h active known
resized-Kept false n t ro h active known = surge_restated-IsShared t _ h active known

module _ (r : RolloutReconciler) (ro : Rollout) (h : Kept (rollout ro)) where
  pub abort_restart_surge-Keeps : Keeps (Fine IsShared) (abort_restart_surge r ro)
  unfolding abort_restart_surge
  abort_restart_surge-Keeps = search (recorded_rules, aborted-Kept)

  pub yield_to_drain-Keeps : Keeps (Fine IsShared) (yield_to_drain r ro)
  unfolding yield_to_drain
  yield_to_drain-Keeps = search (recorded_rules, yielded-Kept)

  restart_with_original-Keeps :
      (rest : ℤ → Exec Outcome)
      → ((n : ℤ) → Keeps (Fine IsShared) (rest n))
      → Keeps (Fine IsShared) (restart_with_original r ro rest)
  restart_with_original-Keeps rest k =
      Keeps-result (get_original_replicas (annotations (rollout ro))) rest
        (abort_restart_surge r ro) abort_restart_surge-Keeps k

  pub handle_restart_scale_up-Keeps : Keeps (Fine IsShared) (handle_restart_scale_up r ro)
  unfolding handle_restart_scale_up
  handle_restart_scale_up-Keeps = restart_with_original-Keeps _ λ n. search (recorded_rules)

module _ (r : RolloutReconciler) (ro : Rollout) (h : Kept (rollout ro))
    (active : restart_state_of ro ≢ DrainState.none) where
  await_two_ready-Keeps : Keeps (Fine IsShared) (await_two_ready r ro)
  unfolding await_two_ready
  await_two_ready-Keeps = search (recorded_rules, restated-Kept, drain_state-IsKnown.1) depth 9

  pub handle_restart_wait_ready-Keeps : Keeps (Fine IsShared) (handle_restart_wait_ready r ro)
  unfolding handle_restart_wait_ready
  handle_restart_wait_ready-Keeps =
      search (recorded_rules, restart_with_original-Keeps, await_two_ready-Keeps) depth 9

  scale_down_after_restart-Keeps : Keeps (Fine IsShared) (scale_down_after_restart r ro)
  unfolding scale_down_after_restart
  scale_down_after_restart-Keeps =
      search (recorded_rules, restart_with_original-Keeps, resized-Kept, drain_state-IsKnown.2)
        depth 9

  pub handle_restart_wait_for_argo-Keeps : Keeps (Fine IsShared) (handle_restart_wait_for_argo r ro)
  unfolding handle_restart_wait_for_argo
  handle_restart_wait_for_argo-Keeps = search (keeps_rules, scale_down_after_restart-Keeps) depth 9

  pub handle_restart_scale_down-Keeps : Keeps (Fine IsShared) (handle_restart_scale_down r ro)
  unfolding handle_restart_scale_down
  handle_restart_scale_down-Keeps =
      search (recorded_rules, restart_with_original-Keeps, resized-Kept, drain_state-IsKnown.3)
        depth 9

module _ (r : RolloutReconciler) (ro : Rollout) (h : Kept (rollout ro)) where
  pub handle_restart_cleanup-Keeps : Keeps (Fine IsShared) (handle_restart_cleanup r ro)
  unfolding handle_restart_cleanup
  handle_restart_cleanup-Keeps = search (recorded_rules, cleared-Kept)
