-- ===== src/RolloutController/Abort.antt =====
-- The struct RolloutReconciler, its clock, restoreHPA, abortRestartSurge and yieldToDrain.
use k8s_drain_surge.Base.{ℕ, String, Option, none, some, ◌==◌, if◌then◌else◌}
use k8s_drain_surge.Base.Maps.{GoMap, get}
use k8s_drain_surge.Config.{Config}
use k8s_drain_surge.State.{
  annotation_hpa_name, clear_restart_surge_annotations, clear_restart_surge_exclusive_annotations,
  get_original_replicas,
}
use k8s_drain_surge.Kube.{Api, Rollout, Time}
use k8s_drain_surge.Errors.{ok}
use k8s_drain_surge.Session.{Exec, pure, within, attempt, ask, warning, emit, ◌>>◌}
use k8s_drain_surge.Workload.{
  Workload, rollout, object_meta, annotations, set_annotations, object_ref, patch,
}
use k8s_drain_surge.NodeController.Abort.{Outcome, finished, replicas_restored}
use k8s_drain_surge.NodeController.Abort

-- `now` is the clock that tests inject.
pub record RolloutReconciler : Type 0 where
  pub client : Api
  pub config : Config
  pub now : Option (ℕ → Time)

abbrev pub time_now : RolloutReconciler → Exec Time
time_now r = ask (λ n. elim r.now [ none ↦ ok (r.client.now n) | some clock ↦ ok (clock n) ])

-- (*RolloutReconciler).restoreHPA, which has the body of (*NodeReconciler).restoreHPA
abbrev pub restore_hpa : Api → String → GoMap String → Exec (Unit {0})
restore_hpa = Abort.restore_hpa

-- The objects as abortRestartSurge and yieldToDrain send them.
unfoldable pub restart_aborted : Workload → Workload
restart_aborted wl =
    let wl' = replicas_restored (get_original_replicas (annotations wl)) wl in
    set_annotations (clear_restart_surge_annotations (annotations wl')) wl'

unfoldable pub yielded : Workload → Workload
yielded wl =
    let wl' =
      if get (annotations wl) annotation_hpa_name == ""
      then replicas_restored (get_original_replicas (annotations wl)) wl
      else wl in
    set_annotations (clear_restart_surge_exclusive_annotations (annotations wl')) wl'

module _ (r : RolloutReconciler) where
  unfoldable pub abort_restart_surge : Rollout → Exec Outcome
  abort_restart_surge ro =
      let wl = rollout ro in
      do
        attempt (restore_hpa r.client (object_meta wl).namespace (annotations wl)) >> pure tt
        within "abort restart-surge" (patch r.client (restart_aborted wl))
        emit (object_ref wl) warning "RestartSurgeAborted"
        pure finished

  unfoldable pub yield_to_drain : Rollout → Exec Outcome
  yield_to_drain ro =
      let wl = rollout ro in
      do
        within "yield to drain" (patch r.client (yielded wl))
        emit (object_ref wl) warning "RestartSurgeYielded"
        pure finished
