-- ===== src/NodeController/Managed/Phases.antt =====
-- The states of a drain with an HPA, one after the other, in a cluster that is ready for the next:
-- what the server holds of the workload, and the minReplicas of the HPA.
use k8s_drain_surge.Base.{
  ℕ, String, ◌≡◌, ◌≢◌, refl, true, false, Option, some, List, [], ◌∷◌, ◌++◌, arith, eq_iff,
}
use k8s_drain_surge.Base.Int.{ℤ}
use k8s_drain_surge.State.{DrainState, drain_state, annotation_drain_state, clear_drain_annotations}
use k8s_drain_surge.State.Clearing.{drain_state-text}
use k8s_drain_surge.Kube.{Api, Hpa, Pod, hpa_patch}
use k8s_drain_surge.Session.{Effect, Session, applied, event, normal}
use k8s_drain_surge.Workload.{
  Workload, annotations, object_ref, object_meta, spec_replicas, set_annotations,
}
use k8s_drain_surge.Workload.Patching.{MergePatch, Stored, stored, apply_effect, is_owned}
use k8s_drain_surge.Scaler.{ready_elsewhere, on_node, hpa_min_replicas_or_default}
use k8s_drain_surge.NodeController.Abort.{NodeReconciler}
use k8s_drain_surge.NodeController.Handlers.{annotate}
use k8s_drain_surge.NodeController.Reconcile.{dispatch, reconcile_workload}
use k8s_drain_surge.NodeController.Reachable.{view}
use k8s_drain_surge.NodeController.Lifecycle.Refinement.{stored_after}
use k8s_drain_surge.NodeController.Progress.{Accepts, InTime, IsDrainAt, patch_to}
use k8s_drain_surge.NodeController.Progress.Handlers.{Lists, history-handle_cleanup}
use k8s_drain_surge.NodeController.Progress.Start.{HasRoom}
use k8s_drain_surge.NodeController.Progress.Steps.{
  IsHeldAt, annotated-IsHeldAt, history-after, next-after, spec_replicas-counted,
  annotations-annotated, annotations-cleared,
}
use k8s_drain_surge.NodeController.Managed.{
  noted, minimum_after, history-managed_wait_ready, history-managed_wait_eviction,
  history-managed_scale_down,
}

module _ (mp : MergePatch) (c0 : Api) (r : NodeReconciler) (base wl : Workload) (node_name : String)
    (calls : ℕ) (hpa : Hpa) (has : HasRoom hpa) (accepts : Accepts r.client)
    (timely : InTime c0 r.client r.config.readiness_timeout) (n : ℤ) (minimum : Option ℤ) where
  abbrev after : Stored
  after = stored_after mp r wl node_name calls (view wl)

  abbrev sent : List Effect
  sent = (reconcile_workload r wl node_name (record { calls = calls; history = [] })).1.history

  abbrev minimum_now : Option ℤ
  minimum_now = minimum_after (object_meta wl).namespace hpa.name minimum sent

  abbrev IsIn : DrainState → Type 0
  IsIn state = IsDrainAt c0 base node_name (noted hpa) state n (spec_replicas wl) (annotations wl)

  abbrev IsNowIn : DrainState → Type 0
  IsNowIn state = IsHeldAt c0 base node_name (noted hpa) state n after

  -- What a handler leaves that sends `next` in a patch.
  leaves :
      (state : DrainState) (next : Workload) (late early : List Effect)
      → IsIn state
      → state ≢ DrainState.none
      → ((k : String) → is_owned k ≡ false → annotations next k ≡ annotations wl k)
      → ((s : Session)
          → (dispatch r state wl node_name s).1.history
            ≡ late ++ (applied (patch_to wl next) ∷ (early ++ s.history)))
      → ((st : Stored) (es : List Effect)
          → stored mp (object_ref wl) st (late ++ es) ≡ stored mp (object_ref wl) st es)
      → stored mp (object_ref wl) (view wl) (early ++ []) ≡ view wl
      → (after ≡ view next) × (sent ≡ late ++ (applied (patch_to wl next) ∷ (early ++ [])))
  leaves state next late early at started kept sends silent before = (
    next-after mp c0 r base wl node_name (noted hpa) calls timely state n next late early at started
        kept sends silent before,
    history-after mp c0 r base wl node_name (noted hpa) calls timely state n next late early at
        started sends,
  )

  restated :
      (state next : DrainState) (t : String)
      → IsIn state
      → drain_state t ≡ next
      → IsHeldAt c0 base node_name (noted hpa) next n (view (annotate annotation_drain_state t wl))
  restated state next t at e =
      annotated-IsHeldAt c0 base node_name (noted hpa) state next n n t wl wl at refl e
        (spec_replicas-counted wl at.at_replicas)

  -- A drain in the state scaled-up becomes ready once the cluster lists a ready pod of the workload
  -- on another node.
  pub managed_becomes_ready :
      (pods : List Pod)
      → IsIn DrainState.scaled_up
      → Lists r.client wl pods
      → ready_elsewhere node_name pods ≡ true
      → IsNowIn DrainState.ready × (minimum_now ≡ minimum)
  unfolding dispatch stored apply_effect minimum_after
  managed_becomes_ready pods at lists ready =
      let (e, h) =
        leaves DrainState.scaled_up (annotate annotation_drain_state "ready" wl) [] [] at (λ p. cc)
          (annotations-annotated wl "ready" wl refl)
          (λ s. history-managed_wait_ready r wl node_name s accepts hpa has at.hpa pods lists ready)
          (λ st es. refl) refl in
      (
        rw e (restated DrainState.scaled_up DrainState.ready "ready" at drain_state-text.2),
        rw h refl,
      )

  -- A ready drain goes on to draining, and gives the HPA its minReplicas back, once the cluster lists
  -- no live pod of the workload on the node.
  pub managed_starts_draining :
      (pods : List Pod)
      → IsIn DrainState.ready
      → Lists r.client wl pods
      → on_node node_name pods ≡ false
      → IsNowIn DrainState.draining × (minimum_now ≡ some (hpa_min_replicas_or_default hpa))
  unfolding dispatch stored apply_effect minimum_after
  managed_starts_draining pods at lists gone =
      let (e, h) =
        leaves DrainState.ready (annotate annotation_drain_state "draining" wl)
          (event (object_ref wl) normal "DrainScaleDown" ∷ [])
          (applied (hpa_patch (object_meta wl).namespace hpa.name (hpa_min_replicas_or_default hpa))
            ∷ [])
          at (λ p. cc) (annotations-annotated wl "draining" wl refl)
          (λ s.
            history-managed_wait_eviction r wl node_name s accepts hpa has at.hpa pods at.minimum
              at.original lists gone)
          (λ st es. refl) refl in
      (
        rw e (restated DrainState.ready DrainState.draining "draining" at drain_state-text.3),
        rw h (
            ground (
              arith,
              eq_iff (object_meta wl).namespace (object_meta wl).namespace,
              eq_iff hpa.name hpa.name,
            )),
      )

  -- A drain that has given the HPA its minReplicas back is done.
  pub managed_becomes_done :
      IsIn DrainState.draining → IsNowIn DrainState.done × (minimum_now ≡ minimum)
  unfolding dispatch stored apply_effect minimum_after
  managed_becomes_done at =
      let (e, h) =
        leaves DrainState.draining (annotate annotation_drain_state "done" wl) [] [] at (λ p. cc)
          (annotations-annotated wl "done" wl refl)
          (λ s. history-managed_scale_down r wl node_name s accepts hpa has at.hpa at.original)
          (λ st es. refl) refl in
      (rw e (restated DrainState.draining DrainState.done "done" at drain_state-text.4), rw h refl)

  -- A done drain is cleared.
  pub managed_is_cleared :
      IsIn DrainState.done
      → (after ≡ view (set_annotations (clear_drain_annotations (annotations wl)) wl))
        × (minimum_now ≡ minimum)
  unfolding dispatch stored apply_effect minimum_after
  managed_is_cleared at =
      let (e, h) =
        leaves DrainState.done (set_annotations (clear_drain_annotations (annotations wl)) wl)
          (event (object_ref wl) normal "DrainComplete" ∷ []) [] at (λ p. cc)
          (annotations-cleared wl) (λ s. history-handle_cleanup r wl node_name s accepts)
          (λ st es. refl) refl in
      (e, rw h refl)
