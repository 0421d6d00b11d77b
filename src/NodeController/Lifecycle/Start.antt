-- ===== src/NodeController/Lifecycle/Start.antt =====
-- handlePending and its patches, as moves out of the state with no drain.
use k8s_drain_surge.Base.{String, ◌≡◌, inl, inr, Option, none, some, refl}
use k8s_drain_surge.Base.Int.{pos}
use k8s_drain_surge.State.{DrainState, annotation_hpa_name, annotation_hpa_original_min_replicas}
use k8s_drain_surge.State.Clearing.{drain_state-text}
use k8s_drain_surge.Session.Keeps.{Keeps, keeps_rules}
use k8s_drain_surge.Kube.{Hpa, Time}
use k8s_drain_surge.Workload.{Workload, rollout, deployment, get_replicas, set_replicas}
use k8s_drain_surge.Scaler.{find_matching_hpa, find_matching_pdb}
use k8s_drain_surge.NodeController.Abort.{NodeReconciler}
use k8s_drain_surge.NodeController.Handlers.{
  annotate, handle_pending, surge_started, surge_target, surge, surge_replicas, surge_hpa,
}
use k8s_drain_surge.NodeController.Reconcile.{state_of}
use k8s_drain_surge.NodeController.Lifecycle.{
  IsMove, Moves, moves_rules, patch_hpa-Moves, surge_target-one,
}

module _ (r : NodeReconciler) (node_name : String) (start : Time) where
  -- Without an HPA, the patch adds one replica.
  surged-IsMove :
      (wl : Workload)
      → state_of wl ≡ DrainState.none
      → get_replicas wl ≡ pos 1
      → IsMove wl (
          set_replicas (surge_target (get_replicas wl)) (surge_started r.client wl node_name start))
  unfolding surge_started
  surged-IsMove (rollout ro) e one = record {
    same = refl;
    follows = rw (e, drain_state-text.1) (one, inl (rw (one, surge_target-one) refl));
  }
  surged-IsMove (deployment d) e one = record {
    same = refl;
    follows = rw (e, drain_state-text.1) (one, inl (rw (one, surge_target-one) refl));
  }

  -- With one, it leaves the replicas to the HPA.
  recorded-IsMove :
      (wl : Workload) (v u : String)
      → state_of wl ≡ DrainState.none
      → get_replicas wl ≡ pos 1
      → IsMove wl (
          annotate annotation_hpa_original_min_replicas v
            (annotate annotation_hpa_name u (surge_started r.client wl node_name start)))
  unfolding surge_started
  recorded-IsMove (rollout ro) v u e one = record {
    same = refl;
    follows = rw (e, drain_state-text.1) (one, inr one);
  }
  recorded-IsMove (deployment d) v u e one = record {
    same = refl;
    follows = rw (e, drain_state-text.1) (one, inr one);
  }

module _ (r : NodeReconciler) (wl : Workload) (node_name : String)
    (e : state_of wl ≡ DrainState.none) (one : get_replicas wl ≡ pos 1) where
  surge-Moves :
      (start : Time) (hpa : Option Hpa)
      → Keeps (Moves wl) (surge r (surge_started r.client wl node_name start) (get_replicas wl) hpa)
  unfolding surge_replicas surge_hpa
  surge-Moves start none = search (moves_rules, surged-IsMove)
  surge-Moves start (some hpa) = search (moves_rules, patch_hpa-Moves, recorded-IsMove) depth 9

  pub handle_pending-Moves : Keeps (Moves wl) (handle_pending r wl node_name)
  unfolding handle_pending find_matching_pdb find_matching_hpa
  handle_pending-Moves = search (keeps_rules, surge-Moves) depth 12
