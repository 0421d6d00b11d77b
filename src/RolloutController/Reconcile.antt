-- ===== src/RolloutController/Reconcile.antt =====
-- (*RolloutReconciler).reconcileWorkload with its guards, and Reconcile.
use k8s_drain_surge.Base.{String, Bool, not, Option, none, some, ◌==◌, if◌then◌else◌}
use k8s_drain_surge.Base.Maps.{get}
use k8s_drain_surge.Errors.{Result, ok, err, is_not_found}
use k8s_drain_surge.State.{
  DrainState, drain_state, is_active, annotation_drain_state, annotation_restart_surge_state,
  parse_restart_surge_start,
}
use k8s_drain_surge.Kube.{Rollout, Time}
use k8s_drain_surge.Session.{Exec, pure, fail, attempt, ask, warning, emit, ◌>>=◌, ◌>>◌}
use k8s_drain_surge.Workload.{rollout, annotations, object_ref}
use k8s_drain_surge.RestartDetect.{sub_time}
use k8s_drain_surge.NodeController.Abort.{Outcome, finished}
use k8s_drain_surge.NodeController.Reconcile.{Overrun, in_time, timed_out, stale, overrun}
use k8s_drain_surge.RolloutController.Abort.{
  RolloutReconciler, time_now, abort_restart_surge, yield_to_drain,
}
use k8s_drain_surge.RolloutController.Handlers.{
  handle_restart_pending, handle_restart_scale_up, handle_restart_wait_ready,
  handle_restart_wait_for_argo, handle_restart_scale_down, handle_restart_cleanup,
}

-- DrainState(annotations[AnnotationRestartSurgeState])
abbrev pub restart_state_of : Rollout → DrainState
restart_state_of ro = drain_state (get (annotations (rollout ro)) annotation_restart_surge_state)

-- The annotations record a drain of the Rollout.
abbrev pub drain_in_progress : Rollout → Bool
drain_in_progress ro = not (get (annotations (rollout ro)) annotation_drain_state == "")

module _ (r : RolloutReconciler) where
  unfoldable pub measure_restart_overrun : Option Time → Exec Overrun
  measure_restart_overrun none = pure in_time
  measure_restart_overrun (some start) = do
    now ← time_now r
    pure (overrun r.config.restart_surge_timeout (sub_time now start))

  -- The switch of reconcileWorkload.
  unfoldable pub restart_dispatch : DrainState → Rollout → Exec Outcome
  restart_dispatch DrainState.none ro = handle_restart_pending r ro
  restart_dispatch DrainState.pending ro = handle_restart_scale_up r ro
  restart_dispatch DrainState.scaled_up ro = handle_restart_wait_ready r ro
  restart_dispatch DrainState.ready ro = handle_restart_wait_for_argo r ro
  restart_dispatch DrainState.draining ro = handle_restart_scale_down r ro
  restart_dispatch DrainState.done ro = handle_restart_cleanup r ro
  restart_dispatch (DrainState.other _) ro = abort_restart_surge r ro

  abbrev pub restart_start_if_active : DrainState → Rollout → Option Time
  restart_start_if_active state ro =
      if is_active state
      then parse_restart_surge_start r.client.parse_rfc3339 (annotations (rollout ro))
      else none

  -- reconcileWorkload after the measurement of the overrun.
  unfoldable pub restart_measured : Overrun → DrainState → Rollout → Exec Outcome
  restart_measured stale state ro = do
    emit (object_ref (rollout ro)) warning "RestartSurgeStale"
    abort_restart_surge r ro
  restart_measured timed_out state ro = do
    emit (object_ref (rollout ro)) warning "RestartSurgeTimeout"
    abort_restart_surge r ro
  restart_measured in_time state ro =
      if drain_in_progress ro
      then (if is_active state then yield_to_drain r ro else pure finished)
      else restart_dispatch state ro

  unfoldable pub reconcile_restart : Rollout → Exec Outcome
  reconcile_restart ro = do
    over ← measure_restart_overrun (restart_start_if_active (restart_state_of ro) ro)
    restart_measured over (restart_state_of ro) ro

  abbrev on_rollout : Result Rollout → Exec Outcome
  on_rollout (ok ro) = reconcile_restart ro
  on_rollout (err e) = if is_not_found e then pure finished else fail e

  -- Reconcile
  unfoldable pub reconcile : String → String → Exec Outcome
  reconcile namespace name = do
    reply ← attempt (ask (λ n. r.client.get_rollout n namespace name))
    on_rollout reply
