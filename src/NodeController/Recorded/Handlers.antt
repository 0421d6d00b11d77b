-- ===== src/NodeController/Recorded/Handlers.antt =====
-- The bookkeeping of the handlers of a drain under way.
use k8s_drain_surge.Base.{String, ◌≢◌, Bool, true, false, if◌then◌else◌}
use k8s_drain_surge.Base.Int.{ℤ}
use k8s_drain_surge.State.{annotation_drain_state, drain_state, DrainState, clear_drain_annotations}
use k8s_drain_surge.Session.Keeps.{Keeps}
use k8s_drain_surge.Workload.{
  Workload, annotations, rollout, deployment, set_replicas, set_annotations,
}
use k8s_drain_surge.Scaler.{find_pod_on_node, find_ready_pod_on_other_node}
use k8s_drain_surge.NodeController.Abort.{NodeReconciler}
use k8s_drain_surge.NodeController.Handlers.{
  handle_scale_down, handle_wait_ready, handle_wait_eviction, handle_cleanup, handle_scale_up,
  annotate, await_ready,
}
use k8s_drain_surge.NodeController.Reconcile.{state_of}
use k8s_drain_surge.Base.Maps.{GoMap}
use k8s_drain_surge.NodeController.Recorded.Laws.{drain_state-IsKnown}
use k8s_drain_surge.NodeController.Recorded.{
  IsKnown, Bookkeeping, Fine, annotate-kept, rescaled-kept, annotations-set_replicas,
  recorded_rules, with_original-Keeps,
}

-- The handlers set the replicas under some test `b`.
pub resized-kept :
    {R : GoMap String → Type 0}
    → Bookkeeping R
    → (test : Bool) (n : ℤ) (t : String) (wl : Workload) → R (annotations wl)
    → state_of wl ≢ DrainState.none
    → IsKnown (drain_state t)
    → R (annotations (annotate annotation_drain_state t (if test then set_replicas n wl else wl)))
resized-kept b true n t wl h active known = rescaled-kept b n t wl h active known
resized-kept b false n t wl h active known = annotate-kept b t wl h active known

cleared-kept :
    {R : GoMap String → Type 0}
    → Bookkeeping R
    → (wl : Workload)
    → R (annotations (set_annotations (clear_drain_annotations (annotations wl)) wl))
cleared-kept b (rollout ro) = b.clears ro.object_meta.annotations
cleared-kept b (deployment d) = b.clears d.object_meta.annotations

module _ {R : GoMap String → Type 0} (b : Bookkeeping R) (r : NodeReconciler) (wl : Workload)
    (h : R (annotations wl)) (active : state_of wl ≢ DrainState.none) where
  pub handle_scale_up-Keeps : Keeps (Fine R) (handle_scale_up r wl)
  unfolding handle_scale_up
  handle_scale_up-Keeps =
      with_original-Keeps b r wl _
        λ n. search (recorded_rules, resized-kept b, drain_state-IsKnown.0)

  pub await_ready-Keeps : (node_name : String) → Keeps (Fine R) (await_ready r wl node_name)
  unfolding await_ready find_ready_pod_on_other_node
  await_ready-Keeps node_name =
      search (recorded_rules, annotate-kept b, drain_state-IsKnown.1) depth 9

  resurged-kept : (n : ℤ) → R (annotations (set_replicas n wl))
  resurged-kept n = rw annotations-set_replicas h

  pub handle_wait_ready-Keeps :
      (node_name : String) → Keeps (Fine R) (handle_wait_ready r wl node_name)
  unfolding handle_wait_ready
  handle_wait_ready-Keeps node_name =
      search (recorded_rules, with_original-Keeps b, await_ready-Keeps, resurged-kept) depth 9

  pub handle_wait_eviction-Keeps :
      (node_name : String) → Keeps (Fine R) (handle_wait_eviction r wl node_name)
  unfolding handle_wait_eviction find_pod_on_node
  handle_wait_eviction-Keeps node_name =
      search (recorded_rules, with_original-Keeps b, resized-kept b, drain_state-IsKnown.2) depth 9

  pub handle_scale_down-Keeps : Keeps (Fine R) (handle_scale_down r wl)
  unfolding handle_scale_down
  handle_scale_down-Keeps =
      with_original-Keeps b r wl _
        λ n. search (recorded_rules, resized-kept b, drain_state-IsKnown.3)

  pub handle_cleanup-Keeps : Keeps (Fine R) (handle_cleanup r wl)
  unfolding handle_cleanup
  handle_cleanup-Keeps = search (recorded_rules, cleared-kept b)
