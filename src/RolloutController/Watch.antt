-- ===== src/RolloutController/Watch.antt =====
-- (*RolloutReconciler).RecoverOrphans, rolloutRelevantPredicate and mapPodToRollout.
use k8s_drain_surge.Base.{
  String, Bool, true, false, not, Option, none, some, List, [], ◌∷◌, ◌==◌, if◌then◌else◌,
}
use k8s_drain_surge.Base.Maps.{get}
use k8s_drain_surge.Errors.{Result, ok}
use k8s_drain_surge.State.{DrainState, drain_state, annotation_restart_surge_state}
use k8s_drain_surge.Kube.{Api, Rollout, Pod}
use k8s_drain_surge.Session.{Exec, pure, within, attempt, ask, ◌>>=◌, ◌>>◌}
use k8s_drain_surge.Workload.{Workload, rollout, annotations}
use k8s_drain_surge.Scaler.{resolve_workload_from_pod}
use k8s_drain_surge.RestartDetect.{restarted}
use k8s_drain_surge.RolloutController.Abort.{RolloutReconciler, abort_restart_surge}
use k8s_drain_surge.RolloutController.Handlers.{restart_pending}

-- argoIdle
abbrev pub argo_idle : Rollout → Bool
argo_idle ro = elim ro.restart_at [ none ↦ true | some _ ↦ restarted ro ]

abbrev pub is_none : DrainState → Bool
is_none DrainState.none = true
is_none _ = false

module _ (r : RolloutReconciler) where
  -- One Rollout of the scan; an error is logged and skipped.
  unfoldable pub recover_restart : Rollout → Exec (Unit {0})
  recover_restart ro =
      let state = drain_state (get (annotations (rollout ro)) annotation_restart_surge_state) in
      if is_none state
      then pure tt
      else if not (argo_idle ro)
      then pure tt
      else do attempt (abort_restart_surge r ro); pure tt

  unfoldable pub recover_restarts : List Rollout → Exec (Unit {0})
  recover_restarts [] = pure tt
  recover_restarts (ro ∷ ros) = recover_restart ro >> recover_restarts ros

  unfoldable pub recover_orphans : Exec (Unit {0})
  recover_orphans = do
    ros ← within "list rollouts" (ask r.client.list_rollouts)
    recover_restarts ros

-- `relevant` of rolloutRelevantPredicate: an operation under way, or an opted-in pending restart.
unfoldable pub rollout_relevant : String → Rollout → Bool
rollout_relevant enabled_annotation ro =
    let m = annotations (rollout ro) in
    if not (get m annotation_restart_surge_state == "")
    then true
    else if not (get m enabled_annotation == "true")
    then false
    else restart_pending ro

-- event.CreateEvent, UpdateEvent with the old and the new object, DeleteEvent, GenericEvent.
pub data RolloutEvent : Type 0 where
  created : Rollout → RolloutEvent
  updated : Rollout → Rollout → RolloutEvent
  deleted : Rollout → RolloutEvent
  generic : Rollout → RolloutEvent

-- rolloutRelevantPredicate
unfoldable pub rollout_relevant_predicate : String → RolloutEvent → Bool
rollout_relevant_predicate enabled_annotation (created ro) = rollout_relevant enabled_annotation ro
rollout_relevant_predicate enabled_annotation (updated old new) =
    rollout_relevant enabled_annotation new
rollout_relevant_predicate enabled_annotation (deleted ro) = rollout_relevant enabled_annotation ro
rollout_relevant_predicate enabled_annotation (generic ro) = rollout_relevant enabled_annotation ro

-- The (namespace, name) of the Rollout that owns a pod.
abbrev pub rollout_requests : Result (Option Workload) → List (String × String)
rollout_requests (ok (some (rollout ro))) = (ro.object_meta.namespace, ro.object_meta.name) ∷ []
rollout_requests _ = []

unfoldable pub map_pod_to_rollout : Api → Pod → Exec (List (String × String))
map_pod_to_rollout c pod = do
  wl ← attempt (resolve_workload_from_pod c pod)
  pure (rollout_requests wl)
