-- ===== src/RolloutController/Lifecycle/Handlers.antt =====
-- The handlers of a restart-surge and their patches, as moves of the abstract machine.
use k8s_drain_surge.Base.{
  String, ◌≡◌, refl, Bool, true, false, not, arith, ◌==◌, ◌&&◌, if◌then◌else◌,
}
use k8s_drain_surge.Base.Int.{ℤ, pos, eqb_ℤ, eqb_ℤ_iff}
use k8s_drain_surge.Base.Maps.{get}
use k8s_drain_surge.Errors.{ok}
use k8s_drain_surge.State.{
  DrainState, drain_state, text, annotation_restart_surge_state, annotation_hpa_name,
  get_original_replicas, clear_restart_surge_annotations,
}
use k8s_drain_surge.State.Clearing.{drain_state-text}
use k8s_drain_surge.Kube.{Rollout}
use k8s_drain_surge.Session.{Exec}
use k8s_drain_surge.Session.Keeps.{Keeps, keeps_rules}
use k8s_drain_surge.Workload.{rollout, annotations, get_replicas, set_replicas, set_annotations}
use k8s_drain_surge.NodeController.Abort.{Outcome}
use k8s_drain_surge.NodeController.Handlers.{annotate, surge_target}
use k8s_drain_surge.NodeController.Lifecycle.{Follows, IsUnderWay, is_managed, surge_target-one}
use k8s_drain_surge.RolloutController.Abort.{RolloutReconciler, abort_restart_surge, yield_to_drain}
use k8s_drain_surge.RolloutController.Handlers.{
  handle_restart_wait_ready, await_two_ready, handle_restart_wait_for_argo,
  scale_down_after_restart, handle_restart_scale_down, handle_restart_cleanup,
  restart_with_original,
}
use k8s_drain_surge.RolloutController.Reconcile.{restart_state_of, drain_in_progress}
use k8s_drain_surge.RolloutController.Lifecycle.{
  IsSurgeMove, SurgeMoves, patch-SurgeMoves, restore_hpa-SurgeMoves, aborted-IsSurgeMove,
  yielded-IsSurgeMove, surge_cleared,
}

module _ (r : RolloutReconciler) (ro : Rollout)
    (known : get_original_replicas (annotations (rollout ro)) ≡ ok (pos 1)) where
  pub abort_restart_surge-SurgeMoves :
      IsUnderWay (restart_state_of ro) → Keeps (SurgeMoves ro) (abort_restart_surge r ro)
  unfolding abort_restart_surge
  abort_restart_surge-SurgeMoves way =
      search (keeps_rules, patch-SurgeMoves, restore_hpa-SurgeMoves, aborted-IsSurgeMove)

  pub yield_to_drain-SurgeMoves :
      IsUnderWay (restart_state_of ro)
      → drain_in_progress ro ≡ true
      → Keeps (SurgeMoves ro) (yield_to_drain r ro)
  unfolding yield_to_drain
  yield_to_drain-SurgeMoves way drained =
      search (keeps_rules, patch-SurgeMoves, yielded-IsSurgeMove)

  restart_with_original-SurgeMoves :
      (rest : ℤ → Exec Outcome)
      → Keeps (SurgeMoves ro) (rest (pos 1))
      → Keeps (SurgeMoves ro) (restart_with_original r ro rest)
  restart_with_original-SurgeMoves rest k = rw (known, restart_with_original) k

module _ (ro : Rollout) (free : drain_in_progress ro ≡ false) where
  ready-IsSurgeMove :
      restart_state_of ro ≡ DrainState.scaled_up
      → IsSurgeMove ro
          (annotate annotation_restart_surge_state (text DrainState.ready) (rollout ro))
  ready-IsSurgeMove e = record { same = refl; follows = rw (free, e, drain_state-text.2) refl }

  resurged-IsSurgeMove :
      restart_state_of ro ≡ DrainState.scaled_up
      → IsSurgeMove ro (set_replicas (surge_target (pos 1)) (rollout ro))
  resurged-IsSurgeMove e = record { same = refl; follows = rw (free, e, surge_target-one) refl }

  -- The copy whose replicas are set under a test, in the state `t`.
  resized-IsSurgeMove :
      (test : Bool) (t : String)
      → Follows
          (is_managed (annotations (rollout ro)))
          (restart_state_of ro)
          (get_replicas (rollout ro))
          (drain_state t)
          (if test then pos 1 else get_replicas (rollout ro))
      → IsSurgeMove ro (
          annotate annotation_restart_surge_state t
            (if test then set_replicas (pos 1) (rollout ro) else rollout ro))
  resized-IsSurgeMove true t f = record { same = refl; follows = rw free f }
  resized-IsSurgeMove false t f = record { same = refl; follows = rw free f }

  drained-IsSurgeMove :
      restart_state_of ro ≡ DrainState.ready
      → IsSurgeMove ro (
          annotate annotation_restart_surge_state (text DrainState.draining) (
            if get (annotations (rollout ro)) annotation_hpa_name == ""
            then set_replicas (pos 1) (rollout ro)
            else rollout ro))
  drained-IsSurgeMove e =
      resized-IsSurgeMove (get (annotations (rollout ro)) annotation_hpa_name == "") "draining"
        (rw (e, drain_state-text.3) (ground arith))

  done-IsSurgeMove :
      restart_state_of ro ≡ DrainState.draining
      → IsSurgeMove ro (
          annotate annotation_restart_surge_state (text DrainState.done) (
            if (get (annotations (rollout ro)) annotation_hpa_name == "")
              && not (eqb_ℤ (get_replicas (rollout ro)) (pos 1))
            then set_replicas (pos 1) (rollout ro)
            else rollout ro))
  done-IsSurgeMove e =
      resized-IsSurgeMove
        ((get (annotations (rollout ro)) annotation_hpa_name == "")
          && not (eqb_ℤ (get_replicas (rollout ro)) (pos 1)))
        "done"
        (rw (e, drain_state-text.4) (ground (arith, eqb_ℤ_iff (get_replicas (rollout ro)) (pos 1))))

  cleared-IsSurgeMove :
      restart_state_of ro ≡ DrainState.done
      → IsSurgeMove ro (
          set_annotations (clear_restart_surge_annotations (annotations (rollout ro))) (rollout ro))
  unfolding clear_restart_surge_annotations
  cleared-IsSurgeMove e = record {
    same = refl;
    follows = rw (free, e, surge_cleared ro.object_meta.annotations) refl;
  }

ruleset surge_rules = (keeps_rules, patch-SurgeMoves, restore_hpa-SurgeMoves)

module _ (r : RolloutReconciler) (ro : Rollout) (free : drain_in_progress ro ≡ false)
    (known : get_original_replicas (annotations (rollout ro)) ≡ ok (pos 1)) where
  await_two_ready-SurgeMoves :
      restart_state_of ro ≡ DrainState.scaled_up → Keeps (SurgeMoves ro) (await_two_ready r ro)
  unfolding await_two_ready
  await_two_ready-SurgeMoves e = search (surge_rules, ready-IsSurgeMove) depth 9

  pub handle_restart_wait_ready-SurgeMoves :
      restart_state_of ro ≡ DrainState.scaled_up
      → Keeps (SurgeMoves ro) (handle_restart_wait_ready r ro)
  unfolding handle_restart_wait_ready
  handle_restart_wait_ready-SurgeMoves e =
      search
        (
          surge_rules, restart_with_original-SurgeMoves, await_two_ready-SurgeMoves,
          resurged-IsSurgeMove,
        )
        depth 9

  scale_down_after_restart-SurgeMoves :
      restart_state_of ro ≡ DrainState.ready → Keeps (SurgeMoves ro) (scale_down_after_restart r ro)
  unfolding scale_down_after_restart
  scale_down_after_restart-SurgeMoves e =
      search (surge_rules, restart_with_original-SurgeMoves, drained-IsSurgeMove) depth 9

  pub handle_restart_wait_for_argo-SurgeMoves :
      restart_state_of ro ≡ DrainState.ready
      → Keeps (SurgeMoves ro) (handle_restart_wait_for_argo r ro)
  unfolding handle_restart_wait_for_argo
  handle_restart_wait_for_argo-SurgeMoves e =
      search (keeps_rules, scale_down_after_restart-SurgeMoves) depth 9

  pub handle_restart_scale_down-SurgeMoves :
      restart_state_of ro ≡ DrainState.draining
      → Keeps (SurgeMoves ro) (handle_restart_scale_down r ro)
  unfolding handle_restart_scale_down
  handle_restart_scale_down-SurgeMoves e =
      search (surge_rules, restart_with_original-SurgeMoves, done-IsSurgeMove) depth 9

pub handle_restart_cleanup-SurgeMoves :
    (r : RolloutReconciler) (ro : Rollout)
    → drain_in_progress ro ≡ false
    → restart_state_of ro ≡ DrainState.done
    → Keeps (SurgeMoves ro) (handle_restart_cleanup r ro)
unfolding handle_restart_cleanup
handle_restart_cleanup-SurgeMoves r ro free e = search (surge_rules, cleared-IsSurgeMove)
