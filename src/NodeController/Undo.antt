-- ===== src/NodeController/Undo.antt =====
-- What abortWorkload leaves in the server.
use text.Mathlib.TextPositions.{eq_refl}
use k8s_drain_surge.Base.{
  String, ◌≡◌, refl, sym, true, Option, none, some, ◌∷◌, arith, if◌then◌else◌,
}
use k8s_drain_surge.Base.Int.{ℤ}
use k8s_drain_surge.Base.Maps.{GoMap}
use k8s_drain_surge.Errors.{Result, ok, err}
use k8s_drain_surge.State.{
  get_original_replicas, clear_drain_annotations, erase_all, drain_annotation_keys,
}
use k8s_drain_surge.State.Clearing.{erase_all-at}
use k8s_drain_surge.Kube.{Api, ObjectRef, Write, workload_patch}
use k8s_drain_surge.Session.{Session, applied, event, warning, ◌>>=◌, send}
use k8s_drain_surge.Workload.{
  Workload, rollout, deployment, annotations, object_meta, object_ref, spec_replicas,
  set_annotations, patch, patch_replicas_and_annotations, annotation_patch,
}
use k8s_drain_surge.Workload.Patching.{
  MergePatch, Stored, apply_effect, stored, is_owned, same_ref, merge-annotation_patch,
}
use k8s_drain_surge.Scaler.{patch_hpa_min_replicas}
use k8s_drain_surge.NodeController.Abort.{
  NodeReconciler, finished, restore_hpa, restore_min, aborted, abort_workload, replicas_restored,
}

pub same_ref_refl : (ref : ObjectRef) → same_ref ref ref ≡ true
same_ref_refl ref = rw (eq_refl ref.kind, eq_refl ref.namespace, eq_refl ref.name)

pub object_ref-replicas_restored :
    (o : Result ℤ) (wl : Workload) (m : GoMap String)
    → object_ref (set_annotations m (replicas_restored o wl)) ≡ object_ref wl
object_ref-replicas_restored (ok n) (rollout ro) m = refl
object_ref-replicas_restored (ok n) (deployment d) m = refl
object_ref-replicas_restored (err e) (rollout ro) m = refl
object_ref-replicas_restored (err e) (deployment d) m = refl

pub object_ref-aborted : (wl : Workload) → object_ref (aborted wl) ≡ object_ref wl
unfolding aborted
object_ref-aborted wl = object_ref-replicas_restored (get_original_replicas (annotations wl)) wl _

pub annotations-replicas_restored :
    (o : Result ℤ) (wl : Workload) (f : GoMap String → GoMap String)
    → annotations
        (set_annotations (f (annotations (replicas_restored o wl))) (replicas_restored o wl))
      ≡ f (annotations wl)
annotations-replicas_restored (ok n) (rollout ro) f = refl
annotations-replicas_restored (ok n) (deployment d) f = refl
annotations-replicas_restored (err e) (rollout ro) f = refl
annotations-replicas_restored (err e) (deployment d) f = refl

pub annotations-aborted :
    (wl : Workload) → annotations (aborted wl) ≡ clear_drain_annotations (annotations wl)
unfolding aborted
annotations-aborted wl =
    annotations-replicas_restored (get_original_replicas (annotations wl)) wl
      clear_drain_annotations

-- The replicas that abortWorkload sends: the recorded count, or what the object has.
abbrev pub restored_replicas : Result ℤ → Option ℤ → Option ℤ
restored_replicas (ok n) _ = some n
restored_replicas (err _) current = current

pub spec_replicas-replicas_restored :
    (o : Result ℤ) (wl : Workload) (m : GoMap String)
    → spec_replicas (set_annotations m (replicas_restored o wl))
      ≡ restored_replicas o (spec_replicas wl)
spec_replicas-replicas_restored (ok n) (rollout ro) m = refl
spec_replicas-replicas_restored (ok n) (deployment d) m = refl
spec_replicas-replicas_restored (err e) (rollout ro) m = refl
spec_replicas-replicas_restored (err e) (deployment d) m = refl

pub spec_replicas-aborted :
    (wl : Workload)
    → spec_replicas (aborted wl)
      ≡ restored_replicas (get_original_replicas (annotations wl)) (spec_replicas wl)
unfolding aborted
spec_replicas-aborted wl =
    spec_replicas-replicas_restored (get_original_replicas (annotations wl)) wl _

module _ (mp : MergePatch) (ref : ObjectRef) (st : Stored) where
  -- Restoring an HPA writes to no workload.
  pub stored-restore_hpa :
      (c : Api) (namespace : String) (m : GoMap String) (s : Session)
      → stored mp ref st (restore_hpa c namespace m s).1.history ≡ stored mp ref st s.history
  unfolding restore_hpa restore_min patch_hpa_min_replicas send stored apply_effect ◌>>=◌
  stored-restore_hpa c namespace m s = ground arith

-- The annotations after the patch of an aborted workload.
merge-cleared :
    (mp : MergePatch) (m a : GoMap String) (k : String)
    → mp.merge (annotation_patch (clear_drain_annotations m)) a k
      ≡ (if is_owned k then none else elim (m k) [ some v ↦ some v | none ↦ a k ])
unfolding clear_drain_annotations
merge-cleared mp m a k = ground (
  arith,
  merge-annotation_patch mp (erase_all drain_annotation_keys m) a k,
  erase_all-at drain_annotation_keys m k,
)

-- The object that abortWorkload sends, as a patch.
abbrev pub abort_patch : Workload → Write
abort_patch wl =
    workload_patch (object_ref wl)
      (restored_replicas (get_original_replicas (annotations wl)) (spec_replicas wl))
      (annotation_patch (clear_drain_annotations (annotations wl)))

sent-abort_patch :
    (wl : Workload)
    → workload_patch
        (object_ref (aborted wl))
        (spec_replicas (aborted wl))
        (annotation_patch (annotations (aborted wl)))
      ≡ abort_patch wl
sent-abort_patch wl = cc (object_ref-aborted wl, spec_replicas-aborted wl, annotations-aborted wl)

history-abort_workload :
    (r : NodeReconciler) (wl : Workload) (s : Session)
    → (abort_workload r wl s).0 ≡ ok finished
    → (abort_workload r wl s).1.history
      ≡ event (object_ref wl) warning "DrainAborted"
        ∷ applied (abort_patch wl)
        ∷ (restore_hpa r.client (object_meta wl).namespace (annotations wl) s).1.history
unfolding abort_workload patch patch_replicas_and_annotations send ◌>>=◌
history-abort_workload r wl s h = ground (arith, sent-abort_patch wl)

-- The server's object after abortWorkload.
stored-abort_workload :
    (mp : MergePatch) (r : NodeReconciler) (wl : Workload) (st : Stored) (s : Session)
    → (abort_workload r wl s).0 ≡ ok finished
    → stored mp (object_ref wl) st (abort_workload r wl s).1.history ≡ record {
      replicas = restored_replicas (get_original_replicas (annotations wl)) (spec_replicas wl);
      annotations =
          mp.merge
            (annotation_patch (clear_drain_annotations (annotations wl)))
            (stored mp (object_ref wl) st s.history).annotations;
    }
unfolding stored apply_effect
stored-abort_workload mp r wl st s h =
    rw
      (
        history-abort_workload r wl s h,
        same_ref_refl (object_ref wl),
        sym (
            stored-restore_hpa mp (object_ref wl) st r.client (object_meta wl).namespace
              (annotations wl) s),
      )
      refl

-- Once abortWorkload has returned without an error, the server holds the recorded replica count (or
-- the cached spec.replicas, if no count could be read), no annotation that the controller owns, the
-- other annotations of the cached object, and any further ones as it had them.
pub abort_workload-restores :
    (mp : MergePatch) (r : NodeReconciler) (wl : Workload) (st : Stored) (s : Session)
    → (abort_workload r wl s).0 ≡ ok finished
    → let after = stored mp (object_ref wl) st (abort_workload r wl s).1.history in
      let before = stored mp (object_ref wl) st s.history in
      (after.replicas
        ≡ restored_replicas (get_original_replicas (annotations wl)) (spec_replicas wl))
      × ((k : String)
          → after.annotations k ≡ (
              if is_owned k
              then none
              else elim (annotations wl k) [ some v ↦ some v | none ↦ before.annotations k ]))
abort_workload-restores mp r wl st s h =
    rw (stored-abort_workload mp r wl st s h)
      (refl, merge-cleared mp (annotations wl) (stored mp (object_ref wl) st s.history).annotations)
