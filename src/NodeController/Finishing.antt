-- ===== src/NodeController/Finishing.antt =====
-- What the last two states of a drain leave in the server.
use k8s_drain_surge.Base.{◌≡◌, some, ◌∷◌, arith, eq_iff}
use k8s_drain_surge.Base.Int.{ℤ, eqb_ℤ_iff}
use k8s_drain_surge.Base.Maps.{get}
use k8s_drain_surge.Errors.{ok}
use k8s_drain_surge.State.{
  DrainState, text, annotation_drain_state, annotation_hpa_name, get_original_replicas,
}
use k8s_drain_surge.Kube.{Write, workload_patch}
use k8s_drain_surge.Session.{Session, applied, ◌>>=◌, send}
use k8s_drain_surge.Workload.{
  Workload, rollout, deployment, annotations, object_ref, spec_replicas, replicas_or_one,
  annotation_patch, patch, patch_replicas_and_annotations,
}
use k8s_drain_surge.Workload.Patching.{
  MergePatch, Stored, stored, apply_effect, merge-annotation_patch,
}
use k8s_drain_surge.NodeController.Abort.{NodeReconciler, requeue}
use k8s_drain_surge.NodeController.Handlers.{handle_scale_down, corrected, annotate}
use k8s_drain_surge.NodeController.Undo.{same_ref_refl}

-- The object that handleScaleDown sends.
abbrev pub completed : NodeReconciler → Workload → ℤ → Workload
completed r wl original =
    annotate annotation_drain_state (text DrainState.done) (corrected r wl original)

pub object_ref-completed :
    (r : NodeReconciler) (wl : Workload) (original : ℤ)
    → object_ref (completed r wl original) ≡ object_ref wl
object_ref-completed r (rollout ro) original = ground arith
object_ref-completed r (deployment d) original = ground arith

replicas-completed :
    (r : NodeReconciler) (wl : Workload) (original : ℤ)
    → get (annotations wl) annotation_hpa_name ≡ ""
    → replicas_or_one (spec_replicas (completed r wl original)) ≡ original
replicas-completed r (rollout ro) original e = ground (
  arith,
  e,
  eq_iff (get (annotations (rollout ro)) annotation_hpa_name) "",
  eqb_ℤ_iff (replicas_or_one ro.replicas) original,
)
replicas-completed r (deployment d) original e = ground (
  arith,
  e,
  eq_iff (get (annotations (deployment d)) annotation_hpa_name) "",
  eqb_ℤ_iff (replicas_or_one d.replicas) original,
)

drain_state-completed :
    (r : NodeReconciler) (wl : Workload) (original : ℤ)
    → annotations (completed r wl original) annotation_drain_state ≡ some "done"
drain_state-completed r (rollout ro) original = ground arith
drain_state-completed r (deployment d) original = ground arith

abbrev completed_patch : NodeReconciler → Workload → ℤ → Write
completed_patch r wl original =
    workload_patch (object_ref wl) (spec_replicas (completed r wl original))
      (annotation_patch (annotations (completed r wl original)))

sent-completed_patch :
    (r : NodeReconciler) (wl : Workload) (original : ℤ)
    → workload_patch
        (object_ref (completed r wl original))
        (spec_replicas (completed r wl original))
        (annotation_patch (annotations (completed r wl original)))
      ≡ completed_patch r wl original
sent-completed_patch r wl original = cc (object_ref-completed r wl original)

history-handle_scale_down :
    (r : NodeReconciler) (wl : Workload) (original : ℤ) (s : Session)
    → get_original_replicas (annotations wl) ≡ ok original
    → (handle_scale_down r wl s).0 ≡ ok (requeue r.config.requeue_interval)
    → (handle_scale_down r wl s).1.history ≡ applied (completed_patch r wl original) ∷ s.history
unfolding handle_scale_down patch patch_replicas_and_annotations send ◌>>=◌
history-handle_scale_down r wl original s known h =
    ground (arith, known, h, sent-completed_patch r wl original)

-- For a drain without an HPA, once handleScaleDown has returned without an error the server holds
-- the original replica count (an absent count stands for 1) and the state "done".
pub handle_scale_down-completes :
    (mp : MergePatch) (r : NodeReconciler) (wl : Workload) (st : Stored) (original : ℤ)
    (s : Session)
    → get (annotations wl) annotation_hpa_name ≡ ""
    → get_original_replicas (annotations wl) ≡ ok original
    → (handle_scale_down r wl s).0 ≡ ok (requeue r.config.requeue_interval)
    → let after = stored mp (object_ref wl) st (handle_scale_down r wl s).1.history in
      (replicas_or_one after.replicas ≡ original)
      × (after.annotations annotation_drain_state ≡ some "done")
unfolding stored apply_effect
handle_scale_down-completes mp r wl st original s plain known h =
    rw (history-handle_scale_down r wl original s known h, same_ref_refl (object_ref wl))
      (
        replicas-completed r wl original plain,
        ground (
          arith,
          merge-annotation_patch mp (annotations (completed r wl original))
              (stored mp (object_ref wl) st s.history).annotations annotation_drain_state,
          drain_state-completed r wl original,
        ),
      )
