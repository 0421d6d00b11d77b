-- ===== src/NodeController/Restoring.antt =====
-- restoreHPA gives back what the surge of an HPA has recorded.
use k8s_drain_surge.Base.{String, ◌≡◌, ◌≢◌, arith, eq_iff}
use k8s_drain_surge.Base.Int.{int32-InRange, InRange, half32}
use k8s_drain_surge.Base.Maps.{GoMap, get}
use k8s_drain_surge.Strconv.{itoa}
use k8s_drain_surge.Strconv.RoundTrip.{atoi-itoa}
use k8s_drain_surge.State.{annotation_hpa_name, annotation_hpa_original_min_replicas}
use k8s_drain_surge.State.Replicas.{int32_fits_int64}
use k8s_drain_surge.Kube.{Api, Hpa}
use k8s_drain_surge.Session.{Session}
use k8s_drain_surge.Workload.{Workload}
use k8s_drain_surge.Scaler.{hpa_min_replicas_or_default, patch_hpa_min_replicas}
use k8s_drain_surge.NodeController.Abort.{restore_hpa, restore_min}
use k8s_drain_surge.NodeController.Handlers.{annotate}

-- The workload with the HPA annotations that handlePending and handleRestartPending write.
abbrev pub with_hpa : Hpa → Workload → Workload
with_hpa hpa wl =
    annotate annotation_hpa_original_min_replicas (itoa (hpa_min_replicas_or_default hpa))
      (annotate annotation_hpa_name hpa.name wl)

-- From annotations that record an HPA, restoreHPA sends it the minReplicas that they record.
pub restore_hpa-recorded :
    (c : Api) (namespace : String) (hpa : Hpa) (m : GoMap String) (s : Session)
    → hpa.name ≢ ""
    → InRange half32 (hpa_min_replicas_or_default hpa)
    → get m annotation_hpa_name ≡ hpa.name
    → get m annotation_hpa_original_min_replicas ≡ itoa (hpa_min_replicas_or_default hpa)
    → restore_hpa c namespace m s
      ≡ patch_hpa_min_replicas c namespace hpa.name (hpa_min_replicas_or_default hpa) s
unfolding restore_hpa restore_min
restore_hpa-recorded c namespace hpa m s named fits e f = ground (
  arith,
  eq_iff (get m annotation_hpa_name) "",
  atoi-itoa (hpa_min_replicas_or_default hpa)
      (int32_fits_int64 (hpa_min_replicas_or_default hpa) fits),
  int32-InRange (hpa_min_replicas_or_default hpa) fits,
)
