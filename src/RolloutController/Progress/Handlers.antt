-- ===== src/RolloutController/Progress/Handlers.antt =====
-- What the handlers of a restart-surge under way send in a cluster that is ready for the next state.
use k8s_drain_surge.Base.{
  suc, ◌≡◌, ◌⊎◌, inl, inr, refl, true, List, ◌∷◌, ◌≤◌, arith, eq_iff, not, Bool-cases,
  if◌then◌else◌,
}
use k8s_drain_surge.Base.Int.{pos, eqb_ℤ, eqb_ℤ_iff}
use k8s_drain_surge.Base.Maps.{get, insert}
use k8s_drain_surge.Errors.{Result, ok}
use k8s_drain_surge.State.{
  DrainState, text, annotation_restart_surge_state, annotation_hpa_name,
  clear_restart_surge_annotations, get_original_replicas,
}
use k8s_drain_surge.Kube.{Pod, Rollout}
use k8s_drain_surge.Session.{applied, event, normal, Session, ◌>>=◌}
use k8s_drain_surge.Workload.{
  Workload, rollout, annotations, object_ref, get_replicas, replicas_or_one, spec_replicas,
  set_replicas, set_annotations,
}
use k8s_drain_surge.RestartDetect.{restart_completed_by_argo}
use k8s_drain_surge.NodeController.Abort.{Outcome, restore_hpa}
use k8s_drain_surge.NodeController.Handlers.{annotate}
use k8s_drain_surge.NodeController.Progress.{Accepts, patch_to, history-patch}
use k8s_drain_surge.NodeController.Progress.Handlers.{Lists}
use k8s_drain_surge.RolloutController.Abort.{RolloutReconciler}
use k8s_drain_surge.RolloutController.Handlers.{
  handle_restart_wait_ready, await_two_ready, ready_count, handle_restart_wait_for_argo,
  status_caught_up, scale_down_after_restart, handle_restart_scale_down, handle_restart_cleanup,
}

-- Argo has finished the restart: by its status, or by the pods that the cluster lists.
abbrev pub ArgoFinished : RolloutReconciler → Rollout → List Pod → Type 0
ArgoFinished r ro pods =
    (status_caught_up r ro ≡ true)
    ⊎ (Lists r.client (rollout ro) pods × (restart_completed_by_argo ro pods ≡ true))

-- The object that handleRestartScaleDown sends.
abbrev pub restart_completed : Rollout → Workload
restart_completed ro = annotate annotation_restart_surge_state (text DrainState.done) (
    if not (eqb_ℤ (get_replicas (rollout ro)) (pos 1))
    then set_replicas (pos 1) (rollout ro)
    else rollout ro)

object_ref-restart_completed :
    (ro : Rollout) → object_ref (restart_completed ro) ≡ object_ref (rollout ro)
object_ref-restart_completed ro = ground arith

pub replicas-restart_completed :
    (ro : Rollout) → replicas_or_one (spec_replicas (restart_completed ro)) ≡ pos 1
replicas-restart_completed ro = ground (arith, eqb_ℤ_iff (replicas_or_one ro.replicas) (pos 1))

pub annotations-restart_completed :
    (ro : Rollout)
    → annotations (restart_completed ro)
      ≡ insert annotation_restart_surge_state "done" ro.object_meta.annotations
annotations-restart_completed ro = ground arith

module _ (r : RolloutReconciler) (ro : Rollout) (s : Session) (accepts : Accepts r.client)
    (plain : get ro.object_meta.annotations annotation_hpa_name ≡ "")
    (known : get_original_replicas ro.object_meta.annotations ≡ ok (pos 1)) where
  pub history-handle_restart_wait_ready :
      (pods : List Pod)
      → get_replicas (rollout ro) ≡ pos 2
      → Lists r.client (rollout ro) pods
      → 2 ≤ ready_count pods
      → (handle_restart_wait_ready r ro s).1.history
        ≡ applied (
            patch_to
              (rollout ro)
              (annotate annotation_restart_surge_state (text DrainState.ready) (rollout ro)))
          ∷ event (object_ref (rollout ro)) normal "RestartSurgeReady"
          ∷ s.history
  unfolding handle_restart_wait_ready await_two_ready ◌>>=◌
  history-handle_restart_wait_ready pods two lists ready = ground (
    arith,
    eq_iff (get ro.object_meta.annotations annotation_hpa_name) "",
    lists s.calls,
    history-patch r.client (rollout ro)
        (annotate annotation_restart_surge_state (text DrainState.ready) (rollout ro))
        (record {
          calls = suc s.calls;
          history = event (object_ref (rollout ro)) normal "RestartSurgeReady" ∷ s.history;
        })
        accepts refl,
  )

  pub history-scale_down_after_restart :
      (scale_down_after_restart r ro s).1.history
      ≡ event (object_ref (rollout ro)) normal "RestartSurgeScaleDown"
        ∷ applied (
            patch_to (rollout ro) (
              annotate annotation_restart_surge_state
                (text DrainState.draining)
                (set_replicas (pos 1) (rollout ro))))
        ∷ s.history
  unfolding scale_down_after_restart restore_hpa ◌>>=◌
  history-scale_down_after_restart = ground (
    arith,
    eq_iff (get ro.object_meta.annotations annotation_hpa_name) "",
    history-patch r.client (rollout ro)
        (annotate annotation_restart_surge_state (text DrainState.draining)
          (set_replicas (pos 1) (rollout ro)))
        s accepts refl,
  )

  pub history-handle_restart_scale_down :
      (handle_restart_scale_down r ro s).1.history
      ≡ applied (patch_to (rollout ro) (restart_completed ro)) ∷ s.history
  unfolding handle_restart_scale_down ◌>>=◌
  history-handle_restart_scale_down = ground (
    arith,
    eq_iff (get ro.object_meta.annotations annotation_hpa_name) "",
    history-patch r.client (rollout ro) (restart_completed ro) s accepts
        (object_ref-restart_completed ro),
  )

module _ (r : RolloutReconciler) (ro : Rollout) (s : Session) (accepts : Accepts r.client) where
  pub history-handle_restart_cleanup :
      (handle_restart_cleanup r ro s).1.history
      ≡ event (object_ref (rollout ro)) normal "RestartSurgeComplete"
        ∷ applied (
            patch_to (rollout ro) (
              set_annotations
                (clear_restart_surge_annotations ro.object_meta.annotations)
                (rollout ro)))
        ∷ s.history
  unfolding handle_restart_cleanup ◌>>=◌
  history-handle_restart_cleanup = ground (
    arith,
    history-patch r.client (rollout ro)
        (set_annotations (clear_restart_surge_annotations ro.object_meta.annotations) (rollout ro))
        s accepts refl,
  )

-- handleRestartWaitForArgo goes on once Argo has finished.
pub handle_restart_wait_for_argo-done :
    (r : RolloutReconciler) (ro : Rollout) (pods : List Pod) (s : Session)
    (P : Result Outcome × Session → Type 0)
    → ArgoFinished r ro pods
    → ((s' : Session) → s'.history ≡ s.history → P (scale_down_after_restart r ro s'))
    → P (handle_restart_wait_for_argo r ro s)
unfolding handle_restart_wait_for_argo ◌>>=◌
handle_restart_wait_for_argo-done r ro pods s P (inl caught_up) k = rw caught_up (k s refl)
handle_restart_wait_for_argo-done r ro pods s P (inr (lists, finished)) k =
    elim (Bool-cases (status_caught_up r ro)) [
      | inl caught_up ↦ rw caught_up (k s refl)
      | inr behind ↦
          rw (behind, lists s.calls, finished) (k (record s { calls = suc s.calls }) refl)
    ]
