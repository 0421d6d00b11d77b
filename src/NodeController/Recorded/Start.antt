-- ===== src/NodeController/Recorded/Start.antt =====
-- shouldProcess and handlePending: the bookkeeping of a drain that starts.
use k8s_drain_surge.Base.{String, ◌≡◌, ◌≢◌, refl, true, Option, none, some, arith}
use k8s_drain_surge.Base.Int.{ℤ, pos, eqb_ℤ_iff}
use k8s_drain_surge.Base.Maps.{GoMap}
use k8s_drain_surge.Errors.{ok}
use k8s_drain_surge.Strconv.{itoa, decimal, digit}
use k8s_drain_surge.State.{annotation_hpa_name, annotation_hpa_original_min_replicas}
use k8s_drain_surge.Session.{Session, ◌>>=◌}
use k8s_drain_surge.Session.Keeps.{Keeps, keeps_rules}
use k8s_drain_surge.Workload.{
  Workload, annotations, rollout, deployment, get_replicas, set_replicas,
}
use k8s_drain_surge.Scaler.{find_matching_hpa, find_matching_pdb}
use k8s_drain_surge.Kube.{Api, Hpa, Time}
use k8s_drain_surge.NodeController.Abort.{NodeReconciler}
use k8s_drain_surge.NodeController.Handlers.{
  handle_pending, annotate, surge_started, surge, surge_replicas, surge_hpa,
}
use k8s_drain_surge.NodeController.Reconcile.{should_process, hpa_check}
use k8s_drain_surge.NodeController.Recorded.{
  Bookkeeping, Fine, begun, patch_hpa-Keeps, annotations-set_replicas, recorded_rules,
}

-- What shouldProcess has let through runs with one replica.
pub should_process-one :
    (r : NodeReconciler) (wl : Workload) (node_name : String) (s : Session)
    → (should_process r wl node_name s).0 ≡ ok true
    → get_replicas wl ≡ pos 1
unfolding should_process hpa_check ◌>>=◌
should_process-one r wl node_name s h = ground (arith, eqb_ℤ_iff (get_replicas wl) (pos 1))

pub itoa-one : itoa (pos 1) ≡ "1"
unfolding itoa decimal digit
itoa-one = refl

-- The annotations of the workload that handlePending sends.
annotations-surge_started :
    (c : Api) (wl : Workload) (node_name : String) (start : Time)
    → get_replicas wl ≡ pos 1
    → annotations (surge_started c wl node_name start)
      ≡ begun (c.format_rfc3339 start) node_name (annotations wl)
unfolding surge_started
annotations-surge_started c (rollout ro) node_name start one = rw (one, itoa-one) refl
annotations-surge_started c (deployment d) node_name start one = rw (one, itoa-one) refl

module _ {R : GoMap String → Type 0} (b : Bookkeeping R) where
  started-kept :
      (c : Api) (wl : Workload) (node_name : String) (start : Time)
      → R (annotations wl)
      → node_name ≢ ""
      → get_replicas wl ≡ pos 1
      → R (annotations (surge_started c wl node_name start))
  started-kept c wl node_name start h named one =
      rw (annotations-surge_started c wl node_name start one)
        (b.begins (c.format_rfc3339 start) node_name (annotations wl) h named)

  pub managed-kept :
      (v u : String) (wl : Workload)
      → R (annotations wl)
      → R (
          annotations
            (annotate annotation_hpa_original_min_replicas u (annotate annotation_hpa_name v wl)))
  managed-kept v u (rollout ro) h = b.manages v u ro.object_meta.annotations h
  managed-kept v u (deployment d) h = b.manages v u d.object_meta.annotations h

  resurged-kept : (n : ℤ) (wl : Workload) → R (annotations wl) → R (annotations (set_replicas n wl))
  resurged-kept n wl h = rw annotations-set_replicas h

  surge-Keeps :
      (r : NodeReconciler) (started : Workload) (n : ℤ) (hpa : Option Hpa)
      → R (annotations started)
      → Keeps (Fine R) (surge r started n hpa)
  unfolding surge_replicas surge_hpa
  surge-Keeps r started n none h = search (recorded_rules, resurged-kept)
  surge-Keeps r started n (some hpa) h =
      search (recorded_rules, patch_hpa-Keeps, managed-kept) depth 9

  pub handle_pending-Keeps :
      (r : NodeReconciler) (wl : Workload) (node_name : String)
      → R (annotations wl)
      → node_name ≢ ""
      → get_replicas wl ≡ pos 1
      → Keeps (Fine R) (handle_pending r wl node_name)
  unfolding handle_pending find_matching_pdb find_matching_hpa
  handle_pending-Keeps r wl node_name h named one =
      search (keeps_rules, surge-Keeps, started-kept) depth 12
