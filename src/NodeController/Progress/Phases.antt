-- ===== src/NodeController/Progress/Phases.antt =====
-- The states of a drain without an HPA, one after the other, in a cluster that is ready for the
-- next.
use k8s_drain_surge.Base.{
  ℕ, String, ◌≡◌, refl, true, false, Bool, List, [], ◌∷◌, arith, eq_iff, ◌==◌, ◌&&◌, not,
}
use k8s_drain_surge.Base.Int.{ℤ, pos, eqb_ℤ, eqb_ℤ_iff}
use k8s_drain_surge.Base.Maps.{get}
use k8s_drain_surge.State.{
  DrainState, annotation_drain_state, annotation_hpa_name, clear_drain_annotations,
}
use k8s_drain_surge.State.Clearing.{drain_state-text}
use k8s_drain_surge.Kube.{Api, Pod}
use k8s_drain_surge.Session.{event, normal}
use k8s_drain_surge.Workload.{
  Workload, annotations, object_ref, spec_replicas, get_replicas, set_annotations,
}
use k8s_drain_surge.Workload.Patching.{MergePatch, Stored, stored, apply_effect}
use k8s_drain_surge.Scaler.{ready_elsewhere, on_node}
use k8s_drain_surge.NodeController.Abort.{NodeReconciler}
use k8s_drain_surge.NodeController.Handlers.{annotate, scaled_down, corrected}
use k8s_drain_surge.NodeController.Reconcile.{dispatch}
use k8s_drain_surge.NodeController.Reachable.{view}
use k8s_drain_surge.NodeController.Lifecycle.Refinement.{stored_after}
use k8s_drain_surge.NodeController.Lifecycle.Handlers.{annotations-resized, replicas-resized}
use k8s_drain_surge.NodeController.Progress.{Accepts, InTime, IsDrainAt, unmanaged}
use k8s_drain_surge.NodeController.Progress.Handlers.{
  Lists, history-handle_wait_ready, history-handle_wait_eviction, history-handle_scale_down,
  history-handle_cleanup,
}
use k8s_drain_surge.NodeController.Progress.Steps.{
  IsHeldAt, annotated-IsHeldAt, next-after, spec_replicas-counted, annotations-annotated,
  annotations-cleared,
}

module _ (mp : MergePatch) (c0 : Api) (r : NodeReconciler) (base wl : Workload) (node_name : String)
    (minimum : String) (calls : ℕ) (accepts : Accepts r.client)
    (timely : InTime c0 r.client r.config.readiness_timeout) where
  abbrev after : Stored
  after = stored_after mp r wl node_name calls (view wl)

  -- A drain in the state scaled-up becomes ready once the cluster lists a ready pod of the workload
  -- on another node.
  pub becomes_ready :
      (pods : List Pod)
      → IsDrainAt c0 base node_name
          (unmanaged minimum)
          DrainState.scaled_up
          (pos 2)
          (spec_replicas wl)
          (annotations wl)
      → Lists r.client wl pods
      → ready_elsewhere node_name pods ≡ true
      → IsHeldAt c0 base node_name (unmanaged minimum) DrainState.ready (pos 2) after
  unfolding dispatch stored apply_effect
  becomes_ready pods at lists ready =
      rw
        (next-after mp c0 r base wl node_name (unmanaged minimum) calls timely DrainState.scaled_up
          (pos 2) (annotate annotation_drain_state "ready" wl) [] [] at (λ p. cc)
          (annotations-annotated wl "ready" wl refl)
          (λ s.
            history-handle_wait_ready r wl node_name s accepts pods at.hpa at.original
              (spec_replicas-counted wl at.at_replicas) lists ready)
          (λ st es. refl) refl)
        (annotated-IsHeldAt c0 base node_name (unmanaged minimum) DrainState.scaled_up
          DrainState.ready (pos 2) (pos 2) "ready" wl wl at refl drain_state-text.2
          (spec_replicas-counted wl at.at_replicas))

  annotations-scaled_down : annotations (scaled_down r wl (pos 1)) ≡ annotations wl
  annotations-scaled_down =
      annotations-resized (get (annotations wl) annotation_hpa_name == "") (pos 1) wl

  replicas-scaled_down :
      get (annotations wl) annotation_hpa_name ≡ ""
      → get_replicas (scaled_down r wl (pos 1)) ≡ pos 1
  replicas-scaled_down plain =
      rw (replicas-resized (get (annotations wl) annotation_hpa_name == "") (pos 1) wl)
        (ground (arith, plain, eq_iff (get (annotations wl) annotation_hpa_name) ""))

  -- A ready drain goes on to draining, with one replica, once the cluster lists no live pod of the
  -- workload on the node.
  pub starts_draining :
      (n : ℤ) (pods : List Pod)
      → IsDrainAt c0 base node_name
          (unmanaged minimum)
          DrainState.ready
          n
          (spec_replicas wl)
          (annotations wl)
      → Lists r.client wl pods
      → on_node node_name pods ≡ false
      → IsHeldAt c0 base node_name (unmanaged minimum) DrainState.draining (pos 1) after
  unfolding dispatch stored apply_effect
  starts_draining n pods at lists gone =
      rw
        (next-after mp c0 r base wl node_name (unmanaged minimum) calls timely DrainState.ready n
          (annotate annotation_drain_state "draining" (scaled_down r wl (pos 1)))
          (event (object_ref wl) normal "DrainScaleDown" ∷ []) [] at (λ p. cc)
          (annotations-annotated wl "draining" (scaled_down r wl (pos 1)) annotations-scaled_down)
          (λ s.
            history-handle_wait_eviction r wl node_name s accepts pods at.hpa at.original lists
              gone)
          (λ st es. refl) refl)
        (annotated-IsHeldAt c0 base node_name (unmanaged minimum) DrainState.ready
          DrainState.draining n (pos 1) "draining" wl (scaled_down r wl (pos 1)) at
          annotations-scaled_down drain_state-text.3 (replicas-scaled_down at.hpa))

  abbrev needs_correction : Bool
  needs_correction =
      (get (annotations wl) annotation_hpa_name == "") && not (eqb_ℤ (get_replicas wl) (pos 1))

  annotations-corrected : annotations (corrected r wl (pos 1)) ≡ annotations wl
  annotations-corrected = annotations-resized needs_correction (pos 1) wl

  replicas-corrected :
      get (annotations wl) annotation_hpa_name ≡ "" → get_replicas (corrected r wl (pos 1)) ≡ pos 1
  replicas-corrected plain = rw (replicas-resized needs_correction (pos 1) wl) (
      ground (
        arith,
        plain,
        eq_iff (get (annotations wl) annotation_hpa_name) "",
        eqb_ℤ_iff (get_replicas wl) (pos 1),
      ))

  -- A drain that has scaled down is done.
  pub becomes_done :
      (n : ℤ)
      → IsDrainAt c0 base node_name
          (unmanaged minimum)
          DrainState.draining
          n
          (spec_replicas wl)
          (annotations wl)
      → IsHeldAt c0 base node_name (unmanaged minimum) DrainState.done (pos 1) after
  unfolding dispatch stored apply_effect
  becomes_done n at =
      rw
        (next-after mp c0 r base wl node_name (unmanaged minimum) calls timely DrainState.draining n
          (annotate annotation_drain_state "done" (corrected r wl (pos 1))) [] [] at (λ p. cc)
          (annotations-annotated wl "done" (corrected r wl (pos 1)) annotations-corrected)
          (λ s. history-handle_scale_down r wl node_name s accepts at.original) (λ st es. refl)
          refl)
        (annotated-IsHeldAt c0 base node_name (unmanaged minimum) DrainState.draining
          DrainState.done n (pos 1) "done" wl (corrected r wl (pos 1)) at annotations-corrected
          drain_state-text.4 (replicas-corrected at.hpa))

  -- A done drain is cleared.
  pub is_cleared :
      (n : ℤ)
      → IsDrainAt c0 base node_name
          (unmanaged minimum)
          DrainState.done
          n
          (spec_replicas wl)
          (annotations wl)
      → after ≡ view (set_annotations (clear_drain_annotations (annotations wl)) wl)
  unfolding dispatch stored apply_effect
  is_cleared n at =
      next-after mp c0 r base wl node_name (unmanaged minimum) calls timely DrainState.done n
        (set_annotations (clear_drain_annotations (annotations wl)) wl)
        (event (object_ref wl) normal "DrainComplete" ∷ []) [] at (λ p. cc) (annotations-cleared wl)
        (λ s. history-handle_cleanup r wl node_name s accepts) (λ st es. refl) refl
