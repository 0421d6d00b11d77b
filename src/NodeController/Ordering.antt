-- ===== src/NodeController/Ordering.antt =====
-- The surge of an HPA: its minReplicas is only raised once the workload records the value before.
use k8s_drain_surge.Base.{◌≡◌, List, [], ◌∷◌, arith}
use k8s_drain_surge.Base.Int.{ℤ}
use k8s_drain_surge.Kube.{Hpa, Write, workload_patch, hpa_patch}
use k8s_drain_surge.Session.{Session, Effect, applied, refused, event, ◌>>=◌, send}
use k8s_drain_surge.Workload.{
  Workload, annotations, object_ref, spec_replicas, annotation_patch, patch,
  patch_replicas_and_annotations,
}
use k8s_drain_surge.Scaler.{patch_hpa_min_replicas}
use k8s_drain_surge.NodeController.Abort.{NodeReconciler}
use k8s_drain_surge.NodeController.Handlers.{surge_hpa}
use k8s_drain_surge.NodeController.Restoring.{with_hpa}

-- The last effect of the history is that the server took this patch.
abbrev pub EndsWith : Write → List Effect → Type 0
EndsWith w [] = ⊥
EndsWith w (applied v ∷ es) = v ≡ w
EndsWith w (refused v ∷ es) = ⊥
EndsWith w (event _ _ _ ∷ es) = ⊥

abbrev pub HpaAfter : Write → Write → List Effect → Type 0
HpaAfter w (hpa_patch _ _ _) es = EndsWith w es
HpaAfter w (workload_patch _ _ _) es = Unit

-- Each patch of an HPA, taken or refused, comes right after this patch was taken.
abbrev pub HpaGuarded : Write → List Effect → Type 0
HpaGuarded w [] = Unit
HpaGuarded w (applied v ∷ es) = HpaAfter w v es × HpaGuarded w es
HpaGuarded w (refused v ∷ es) = HpaAfter w v es × HpaGuarded w es
HpaGuarded w (event _ _ _ ∷ es) = HpaGuarded w es

-- The patch that records the HPA and its minReplicas in the workload.
abbrev pub recording : Workload → Hpa → Write
recording wl hpa =
    workload_patch (object_ref (with_hpa hpa wl)) (spec_replicas (with_hpa hpa wl))
      (annotation_patch (annotations (with_hpa hpa wl)))

-- Where handlePending surges an HPA, each HPA patch of the history, taken or refused, comes right
-- after the server has taken the patch that records the name and minReplicas of the HPA in the
-- workload, if the history before had this property.
pub surge_hpa-HpaGuarded :
    (r : NodeReconciler) (wl : Workload) (original : ℤ) (hpa : Hpa) (s : Session)
    → HpaGuarded (recording wl hpa) s.history
    → HpaGuarded (recording wl hpa) (surge_hpa r wl original hpa s).1.history
unfolding surge_hpa patch patch_replicas_and_annotations patch_hpa_min_replicas send ◌>>=◌
surge_hpa-HpaGuarded r wl original hpa s h = ground (arith, h)
