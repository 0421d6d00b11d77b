-- ===== src/NodeController/Progress/Handlers.antt =====
-- What the handlers of a drain under way send in a cluster that is ready for the next state.
use k8s_drain_surge.Base.{ℕ, suc, String, ◌≡◌, refl, true, false, List, ◌∷◌, arith, eq_iff}
use k8s_drain_surge.Base.Int.{pos}
use k8s_drain_surge.Base.Maps.{GoMap, get}
use k8s_drain_surge.Errors.{ok}
use k8s_drain_surge.State.{
  DrainState, text, annotation_drain_state, annotation_hpa_name, clear_drain_annotations,
  get_original_replicas,
}
use k8s_drain_surge.Kube.{Api, Pod}
use k8s_drain_surge.Session.{applied, event, normal, Session, ◌>>=◌}
use k8s_drain_surge.Workload.{
  Workload, rollout, deployment, annotations, object_ref, object_meta, get_pod_selector,
  get_replicas, set_annotations,
}
use k8s_drain_surge.Scaler.{
  find_ready_pod_on_other_node, ready_elsewhere, find_pod_on_node, on_node,
}
use k8s_drain_surge.NodeController.Abort.{NodeReconciler, restore_hpa}
use k8s_drain_surge.NodeController.Handlers.{
  annotate, scaled_down, corrected, handle_wait_ready, await_ready, handle_wait_eviction,
  handle_scale_down, handle_cleanup,
}
use k8s_drain_surge.NodeController.Finishing.{object_ref-completed}
use k8s_drain_surge.NodeController.Progress.{Accepts, patch_to, history-patch}

-- The cluster lists these pods of the workload.
abbrev pub Lists : Api → Workload → List Pod → Type 0
Lists c wl pods =
    (k : ℕ) → c.list_pods k (object_meta wl).namespace (get_pod_selector c wl) ≡ ok pods

pub object_ref-annotate :
    (k v : String) (wl : Workload) → object_ref (annotate k v wl) ≡ object_ref wl
object_ref-annotate k v (rollout ro) = refl
object_ref-annotate k v (deployment d) = refl

object_ref-set_annotations :
    (m : GoMap String) (wl : Workload) → object_ref (set_annotations m wl) ≡ object_ref wl
object_ref-set_annotations m (rollout ro) = refl
object_ref-set_annotations m (deployment d) = refl

pub object_ref-scaled_down :
    (r : NodeReconciler) (wl : Workload)
    → object_ref
        (annotate annotation_drain_state (text DrainState.draining) (scaled_down r wl (pos 1)))
      ≡ object_ref wl
object_ref-scaled_down r (rollout ro) = ground arith
object_ref-scaled_down r (deployment d) = ground arith

module _ (r : NodeReconciler) (wl : Workload) (node_name : String) (s : Session)
    (accepts : Accepts r.client) where
  pub history-handle_wait_ready :
      (pods : List Pod)
      → get (annotations wl) annotation_hpa_name ≡ ""
      → get_original_replicas (annotations wl) ≡ ok (pos 1)
      → get_replicas wl ≡ pos 2
      → Lists r.client wl pods
      → ready_elsewhere node_name pods ≡ true
      → (handle_wait_ready r wl node_name s).1.history
        ≡ applied (patch_to wl (annotate annotation_drain_state (text DrainState.ready) wl))
          ∷ s.history
  unfolding handle_wait_ready await_ready find_ready_pod_on_other_node ◌>>=◌
  history-handle_wait_ready pods plain known two lists ready = ground (
    arith,
    eq_iff (get (annotations wl) annotation_hpa_name) "",
    lists s.calls,
    history-patch r.client wl (annotate annotation_drain_state (text DrainState.ready) wl)
        (record s { calls = suc s.calls }) accepts (object_ref-annotate _ _ wl),
  )

  pub history-handle_wait_eviction :
      (pods : List Pod)
      → get (annotations wl) annotation_hpa_name ≡ ""
      → get_original_replicas (annotations wl) ≡ ok (pos 1)
      → Lists r.client wl pods
      → on_node node_name pods ≡ false
      → (handle_wait_eviction r wl node_name s).1.history
        ≡ event (object_ref wl) normal "DrainScaleDown"
          ∷ applied (
              patch_to wl (
                annotate annotation_drain_state
                  (text DrainState.draining)
                  (scaled_down r wl (pos 1))))
          ∷ s.history
  unfolding handle_wait_eviction find_pod_on_node restore_hpa ◌>>=◌
  history-handle_wait_eviction pods plain known lists gone = ground (
    arith,
    eq_iff (get (annotations wl) annotation_hpa_name) "",
    lists s.calls,
    history-patch r.client wl
        (annotate annotation_drain_state (text DrainState.draining) (scaled_down r wl (pos 1)))
        (record s { calls = suc s.calls }) accepts (object_ref-scaled_down r wl),
  )

  pub history-handle_scale_down :
      get_original_replicas (annotations wl) ≡ ok (pos 1)
      → (handle_scale_down r wl s).1.history
        ≡ applied (
            patch_to wl
              (annotate annotation_drain_state (text DrainState.done) (corrected r wl (pos 1))))
          ∷ s.history
  unfolding handle_scale_down ◌>>=◌
  history-handle_scale_down known = ground (
    arith,
    history-patch r.client wl
        (annotate annotation_drain_state (text DrainState.done) (corrected r wl (pos 1))) s accepts
        (object_ref-completed r wl (pos 1)),
  )

  pub history-handle_cleanup :
      (handle_cleanup r wl s).1.history
      ≡ event (object_ref wl) normal "DrainComplete"
        ∷ applied (patch_to wl (set_annotations (clear_drain_annotations (annotations wl)) wl))
        ∷ s.history
  unfolding handle_cleanup ◌>>=◌
  history-handle_cleanup = ground (
    arith,
    history-patch r.client wl (set_annotations (clear_drain_annotations (annotations wl)) wl) s
        accepts (object_ref-set_annotations _ wl),
  )
