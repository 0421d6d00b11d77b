-- ===== src/RolloutController/Lifecycle/Start.antt =====
-- handleRestartPending and its patches, as moves out of the state with no restart-surge.
use k8s_drain_surge.Base.{String, ◌≡◌, inl, inr, refl, false, not, Option, none, some, arith}
use k8s_drain_surge.Base.Int.{ℤ, pos, eqb_ℤ, eqb_ℤ_iff}
use k8s_drain_surge.State.{DrainState, annotation_hpa_name, annotation_hpa_original_min_replicas}
use k8s_drain_surge.State.Clearing.{drain_state-text}
use k8s_drain_surge.Kube.{Hpa, Rollout, Time}
use k8s_drain_surge.Session.Keeps.{Keeps, keeps_rules}
use k8s_drain_surge.Scaler.{find_matching_hpa, find_matching_pdb}
use k8s_drain_surge.Workload.{rollout, get_replicas, set_replicas}
use k8s_drain_surge.NodeController.Handlers.{annotate, surge_target}
use k8s_drain_surge.NodeController.Lifecycle.{surge_target-one}
use k8s_drain_surge.RolloutController.Abort.{RolloutReconciler}
use k8s_drain_surge.RolloutController.Handlers.{
  restart_surge, restart_surge_started, restart_surge_replicas, restart_surge_hpa,
  start_restart_surge, handle_restart_pending,
}
use k8s_drain_surge.RolloutController.Reconcile.{restart_state_of, drain_in_progress}
use k8s_drain_surge.RolloutController.Lifecycle.{
  IsSurgeMove, SurgeMoves, patch-SurgeMoves, patch_hpa-SurgeMoves,
}

module _ (r : RolloutReconciler) (ro : Rollout) (free : drain_in_progress ro ≡ false)
    (e : restart_state_of ro ≡ DrainState.none) where
  -- Without an HPA, the patch adds one replica.
  surged-IsSurgeMove :
      (start : Time)
      → get_replicas (rollout ro) ≡ pos 1
      → IsSurgeMove ro (
          set_replicas
            (surge_target (get_replicas (rollout ro)))
            (restart_surge_started r.client (rollout ro) start))
  unfolding restart_surge_started
  surged-IsSurgeMove start one = record {
    same = refl;
    follows = rw (free, e, drain_state-text.1) (one, inl (rw (one, surge_target-one) refl));
  }

  -- With one, it leaves the replicas to the HPA.
  recorded-IsSurgeMove :
      (start : Time) (v u : String)
      → get_replicas (rollout ro) ≡ pos 1
      → IsSurgeMove ro (
          annotate annotation_hpa_original_min_replicas v
            (annotate annotation_hpa_name u (restart_surge_started r.client (rollout ro) start)))
  unfolding restart_surge_started
  recorded-IsSurgeMove start v u one = record {
    same = refl;
    follows = rw (free, e, drain_state-text.1) (one, inr one);
  }

  restart_surge-SurgeMoves :
      (start : Time) (hpa : Option Hpa)
      → get_replicas (rollout ro) ≡ pos 1
      → Keeps (SurgeMoves ro) (
          restart_surge r
            (restart_surge_started r.client (rollout ro) start)
            (get_replicas (rollout ro))
            hpa)
  unfolding restart_surge_replicas restart_surge_hpa
  restart_surge-SurgeMoves start none one =
      search (keeps_rules, patch-SurgeMoves, surged-IsSurgeMove)
  restart_surge-SurgeMoves start (some hpa) one =
      search (keeps_rules, patch-SurgeMoves, patch_hpa-SurgeMoves, recorded-IsSurgeMove) depth 9

  start_restart_surge-SurgeMoves :
      get_replicas (rollout ro) ≡ pos 1 → Keeps (SurgeMoves ro) (start_restart_surge r ro)
  unfolding start_restart_surge find_matching_pdb find_matching_hpa
  start_restart_surge-SurgeMoves one = search (keeps_rules, restart_surge-SurgeMoves) depth 12

  one_replica : (n : ℤ) → not (eqb_ℤ n (pos 1)) ≡ false → n ≡ pos 1
  one_replica n e = ground (arith, e, eqb_ℤ_iff n (pos 1))

  pub handle_restart_pending-SurgeMoves : Keeps (SurgeMoves ro) (handle_restart_pending r ro)
  unfolding handle_restart_pending
  handle_restart_pending-SurgeMoves =
      search (keeps_rules, start_restart_surge-SurgeMoves, one_replica) depth 12
