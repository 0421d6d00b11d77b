-- ===== src/RolloutController/Yield.antt =====
-- A restart-surge and a drain of one Rollout share annotations: what each way out of a restart-surge
-- leaves of the drain's record.
use k8s_drain_surge.Base.{
  String, ◌≡◌, refl, Bool, true, false, none, List, ◌∷◌, arith, if◌then◌else◌, ◌==◌,
}
use k8s_drain_surge.Base.Int.{ℤ}
use k8s_drain_surge.Base.Maps.{GoMap, get}
use k8s_drain_surge.Errors.{Result, ok}
use k8s_drain_surge.State.{
  get_original_replicas, annotation_hpa_name, erase_all, mem_key, restart_surge_exclusive_keys,
  restart_surge_full_keys, clear_restart_surge_exclusive_annotations,
  clear_restart_surge_annotations,
}
use k8s_drain_surge.State.Clearing.{erase_all-at}
use k8s_drain_surge.Kube.{Rollout, Write, workload_patch}
use k8s_drain_surge.Session.{Session, applied, event, warning, ◌>>=◌, send}
use k8s_drain_surge.Workload.{
  Workload, rollout, annotations, object_ref, set_annotations, spec_replicas, annotation_patch,
  patch, patch_replicas_and_annotations,
}
use k8s_drain_surge.Workload.Patching.{
  MergePatch, Stored, stored, apply_effect, is_owned, merge-annotation_patch,
}
use k8s_drain_surge.NodeController.Abort.{finished, replicas_restored}
use k8s_drain_surge.NodeController.Undo.{
  same_ref_refl, annotations-replicas_restored, object_ref-replicas_restored,
}
use k8s_drain_surge.RolloutController.Abort.{
  RolloutReconciler, yielded, yield_to_drain, restart_aborted, abort_restart_surge, restore_hpa,
}

-- The annotations after a patch of the object less some of the owned keys.
merge-erased :
    (mp : MergePatch) (keys : List String) (m a : GoMap String) (k : String)
    → is_owned k ≡ true
    → mp.merge (annotation_patch (erase_all keys m)) a k ≡ (if mem_key keys k then none else m k)
merge-erased mp keys m a k owned =
    ground (arith, merge-annotation_patch mp (erase_all keys m) a k, erase_all-at keys m k)

-- The copy that yieldToDrain edits is the cached object up to its replicas.
abbrev maybe_restored : Bool → Result ℤ → Rollout → Workload
maybe_restored restores o ro = if restores then replicas_restored o (rollout ro) else rollout ro

annotations-maybe_restored :
    (restores : Bool) (o : Result ℤ) (ro : Rollout) (f : GoMap String → GoMap String)
    → let wl = maybe_restored restores o ro in
      annotations (set_annotations (f (annotations wl)) wl) ≡ f (annotations (rollout ro))
annotations-maybe_restored true o ro f = annotations-replicas_restored o (rollout ro) f
annotations-maybe_restored false o ro f = refl

object_ref-maybe_restored :
    (restores : Bool) (o : Result ℤ) (ro : Rollout) (m : GoMap String)
    → object_ref (set_annotations m (maybe_restored restores o ro)) ≡ object_ref (rollout ro)
object_ref-maybe_restored true o ro m = object_ref-replicas_restored o (rollout ro) m
object_ref-maybe_restored false o ro m = refl

pub annotations-yielded :
    (ro : Rollout)
    → annotations (yielded (rollout ro))
      ≡ erase_all restart_surge_exclusive_keys (annotations (rollout ro))
unfolding yielded clear_restart_surge_exclusive_annotations
annotations-yielded ro =
    annotations-maybe_restored (get (annotations (rollout ro)) annotation_hpa_name == "")
      (get_original_replicas (annotations (rollout ro))) ro
      clear_restart_surge_exclusive_annotations

pub object_ref-yielded :
    (ro : Rollout) → object_ref (yielded (rollout ro)) ≡ object_ref (rollout ro)
unfolding yielded
object_ref-yielded ro =
    object_ref-maybe_restored (get (annotations (rollout ro)) annotation_hpa_name == "")
      (get_original_replicas (annotations (rollout ro))) ro _

pub annotations-restart_aborted :
    (ro : Rollout)
    → annotations (restart_aborted (rollout ro))
      ≡ erase_all restart_surge_full_keys (annotations (rollout ro))
unfolding restart_aborted clear_restart_surge_annotations
annotations-restart_aborted ro =
    annotations-replicas_restored (get_original_replicas (annotations (rollout ro))) (rollout ro)
      clear_restart_surge_annotations

pub object_ref-restart_aborted :
    (ro : Rollout) → object_ref (restart_aborted (rollout ro)) ≡ object_ref (rollout ro)
unfolding restart_aborted
object_ref-restart_aborted ro =
    object_ref-replicas_restored (get_original_replicas (annotations (rollout ro))) (rollout ro) _

abbrev yield_patch : Rollout → Write
yield_patch ro =
    workload_patch (object_ref (rollout ro)) (spec_replicas (yielded (rollout ro)))
      (annotation_patch (erase_all restart_surge_exclusive_keys (annotations (rollout ro))))

abbrev abort_patch : Rollout → Write
abort_patch ro =
    workload_patch (object_ref (rollout ro)) (spec_replicas (restart_aborted (rollout ro)))
      (annotation_patch (erase_all restart_surge_full_keys (annotations (rollout ro))))

sent-yield_patch :
    (ro : Rollout)
    → workload_patch
        (object_ref (yielded (rollout ro)))
        (spec_replicas (yielded (rollout ro)))
        (annotation_patch (annotations (yielded (rollout ro))))
      ≡ yield_patch ro
sent-yield_patch ro = cc (object_ref-yielded ro, annotations-yielded ro)

sent-abort_patch :
    (ro : Rollout)
    → workload_patch
        (object_ref (restart_aborted (rollout ro)))
        (spec_replicas (restart_aborted (rollout ro)))
        (annotation_patch (annotations (restart_aborted (rollout ro))))
      ≡ abort_patch ro
sent-abort_patch ro = cc (object_ref-restart_aborted ro, annotations-restart_aborted ro)

history-yield_to_drain :
    (r : RolloutReconciler) (ro : Rollout) (s : Session)
    → (yield_to_drain r ro s).0 ≡ ok finished
    → (yield_to_drain r ro s).1.history
      ≡ event (object_ref (rollout ro)) warning "RestartSurgeYielded"
        ∷ applied (yield_patch ro)
        ∷ s.history
unfolding yield_to_drain patch patch_replicas_and_annotations send ◌>>=◌
history-yield_to_drain r ro s h = ground (arith, sent-yield_patch ro)

history-abort_restart_surge :
    (r : RolloutReconciler) (ro : Rollout) (s : Session)
    → (abort_restart_surge r ro s).0 ≡ ok finished
    → (abort_restart_surge r ro s).1.history
      ≡ event (object_ref (rollout ro)) warning "RestartSurgeAborted"
        ∷ applied (abort_patch ro)
        ∷ (restore_hpa r.client ro.object_meta.namespace ro.object_meta.annotations s).1.history
unfolding abort_restart_surge patch patch_replicas_and_annotations send ◌>>=◌
history-abort_restart_surge r ro s h = ground (arith, sent-abort_patch ro)

module _ (mp : MergePatch) (r : RolloutReconciler) (ro : Rollout) (st : Stored) (s : Session) where
  -- After yieldToDrain has returned without an error, of the keys that the controller owns the two
  -- restart-surge keys are gone from the server and the others are as in the cached object, so that
  -- the record of the drain is kept.
  pub yield_to_drain-keeps :
      (k : String)
      → (yield_to_drain r ro s).0 ≡ ok finished
      → is_owned k ≡ true
      → (stored mp (object_ref (rollout ro)) st (yield_to_drain r ro s).1.history).annotations k
        ≡ (if mem_key restart_surge_exclusive_keys k then none else annotations (rollout ro) k)
  unfolding stored apply_effect
  yield_to_drain-keeps k h owned =
      rw (history-yield_to_drain r ro s h, same_ref_refl (object_ref (rollout ro)))
        (merge-erased mp restart_surge_exclusive_keys (annotations (rollout ro)) _ k owned)

  -- After abortRestartSurge has returned without an error, the server has lost every restart-surge
  -- key and also the original replica count and the HPA keys that a drain of the Rollout shares;
  -- the other owned keys are as in the cached object.
  pub abort_restart_surge-clears :
      (k : String)
      → (abort_restart_surge r ro s).0 ≡ ok finished
      → is_owned k ≡ true
      → (stored mp (object_ref (rollout ro)) st (abort_restart_surge r ro s).1.history).annotations
          k
        ≡ (if mem_key restart_surge_full_keys k then none else annotations (rollout ro) k)
  unfolding stored apply_effect
  abort_restart_surge-clears k h owned =
      rw (history-abort_restart_surge r ro s h, same_ref_refl (object_ref (rollout ro)))
        (merge-erased mp restart_surge_full_keys (annotations (rollout ro)) _ k owned)
