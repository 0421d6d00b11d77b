-- ===== src/NodeController/Progress/Beginning.antt =====
-- The beginning of a drain without an HPA: the object that its first patch sends.
use k8s_drain_surge.Base.{
  ℕ, suc, String, ◌≡◌, refl, false, Option, none, some, List, [], ◌∷◌, arith,
}
use k8s_drain_surge.Base.Int.{ℤ, pos}
use k8s_drain_surge.Base.Maps.{GoMap, get, insert}
use k8s_drain_surge.State.{
  DrainState, annotation_drain_state, annotation_hpa_name, annotation_hpa_original_min_replicas,
  annotation_drain_start, annotation_drain_node, annotation_original_replicas,
}
use k8s_drain_surge.State.Clearing.{drain_state-text}
use k8s_drain_surge.Kube.{Api, Hpa, Pdb}
use k8s_drain_surge.Session.{event, normal}
use k8s_drain_surge.Workload.{
  Workload, rollout, deployment, annotations, object_ref, replicas_or_one, get_replicas,
}
use k8s_drain_surge.Workload.Patching.{MergePatch, stored, apply_effect, is_owned}
use k8s_drain_surge.NodeController.Abort.{NodeReconciler}
use k8s_drain_surge.NodeController.Handlers.{surge_started}
use k8s_drain_surge.NodeController.Recorded.Start.{itoa-one}
use k8s_drain_surge.NodeController.Recorded.Laws.{original_one}
use k8s_drain_surge.NodeController.Lifecycle.{surge_target-one}
use k8s_drain_surge.NodeController.Reachable.{view}
use k8s_drain_surge.NodeController.Lifecycle.Refinement.{stored_after}
use k8s_drain_surge.NodeController.Progress.{Accepts, IsDrainAt, unmanaged, stored-patch_to}
use k8s_drain_surge.NodeController.Progress.Start.{CanStart, surged, history-started}
use k8s_drain_surge.NodeController.Progress.Steps.{IsHeldAt}

bookkeeping-IsDrainAt :
    (c : Api) (node_name : String) (calls : ℕ) (wl : Workload) (replicas : Option ℤ)
    (m : GoMap String)
    → get m annotation_hpa_name ≡ ""
    → ((k : String) → is_owned k ≡ false → m k ≡ annotations wl k)
    → replicas_or_one replicas ≡ pos 2
    → IsDrainAt c wl node_name
        (unmanaged (get m annotation_hpa_original_min_replicas))
        DrainState.scaled_up
        (pos 2)
        replicas
        (insert annotation_drain_start (c.format_rfc3339 (c.now calls)) (
          insert annotation_drain_node node_name (
            insert annotation_original_replicas "1" (insert annotation_drain_state "scaled-up" m))))
bookkeeping-IsDrainAt c node_name calls wl replicas m no_hpa same two = record {
  at_state = drain_state-text.1;
  at_replicas = two;
  original = original_one _ refl;
  node = refl;
  hpa = no_hpa;
  minimum = refl;
  stamp = record { call = calls; shown = refl };
  foreign = λ k owned. ground (arith, same k owned);
}

surged-IsHeldAt :
    (r : NodeReconciler) (wl : Workload) (node_name : String) (calls : ℕ)
    → get_replicas wl ≡ pos 1
    → get (annotations wl) annotation_hpa_name ≡ ""
    → IsHeldAt r.client wl node_name
        (unmanaged (get (annotations wl) annotation_hpa_original_min_replicas))
        DrainState.scaled_up
        (pos 2)
        (view (surged r wl node_name calls))
unfolding surge_started
surged-IsHeldAt r (rollout ro) node_name calls one no_hpa =
    rw (one, itoa-one, surge_target-one)
      (bookkeeping-IsDrainAt r.client node_name _ (rollout ro) (some (pos 2))
        ro.object_meta.annotations no_hpa (λ k owned. refl) refl)
surged-IsHeldAt r (deployment d) node_name calls one no_hpa =
    rw (one, itoa-one, surge_target-one)
      (bookkeeping-IsDrainAt r.client node_name _ (deployment d) (some (pos 2))
        d.object_meta.annotations no_hpa (λ k owned. refl) refl)

foreign-surged :
    (r : NodeReconciler) (wl : Workload) (node_name : String) (calls : ℕ) (k : String)
    → is_owned k ≡ false
    → annotations (surged r wl node_name calls) k ≡ annotations wl k
unfolding surge_started
foreign-surged r (rollout ro) node_name calls k foreign = ground (arith, foreign)
foreign-surged r (deployment d) node_name calls k foreign = ground (arith, foreign)

-- A workload at rest that may be drained goes to the state scaled-up, with two replicas.
pub begins :
    (mp : MergePatch) (r : NodeReconciler) (wl : Workload) (node_name : String) (calls : ℕ)
    (hpas : List Hpa) (pdbs : List Pdb)
    → Accepts r.client
    → CanStart r wl node_name hpas pdbs none
    → IsHeldAt r.client wl node_name
        (unmanaged (get (annotations wl) annotation_hpa_original_min_replicas))
        DrainState.scaled_up
        (pos 2)
        (stored_after mp r wl node_name calls (view wl))
unfolding stored apply_effect
begins mp r wl node_name calls hpas pdbs accepts can =
    rw
      (
        history-started r wl node_name (record { calls = calls; history = [] }) hpas pdbs can
            accepts,
        stored-patch_to mp wl (surged r wl node_name calls) (view wl)
            (event
                (object_ref (surge_started r.client wl node_name (r.client.now (suc (suc calls)))))
                normal "DrainSurge"
              ∷ [])
            (foreign-surged r wl node_name calls) refl,
      )
      (surged-IsHeldAt r wl node_name calls can.single can.allows)
