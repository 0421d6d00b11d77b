-- ===== src/NodeController/Stalling.antt =====
-- A drain with an HPA whose surge has failed half way.
use k8s_drain_surge.Base.{String, ◌≡◌, ◌≢◌, false, arith, eq_iff, ◌==◌}
use k8s_drain_surge.Base.Maps.{get}
use k8s_drain_surge.State.{DrainState, annotation_hpa_name}
use k8s_drain_surge.Kube.{Api, Write, workload_patch, hpa_patch}
use k8s_drain_surge.Session.Keeps.{Keeps, Writes, Keeps-emit, Keeps-send, keeps_rules}
use k8s_drain_surge.Workload.{Workload, annotations, patch, patch_replicas_and_annotations}
use k8s_drain_surge.Scaler.{find_ready_pod_on_other_node}
use k8s_drain_surge.NodeController.Abort.{NodeReconciler}
use k8s_drain_surge.NodeController.Handlers.{handle_wait_ready, await_ready}
use k8s_drain_surge.NodeController.Reconcile.{state_of, in_time, reconcile_measured, dispatch}
use k8s_drain_surge.NodeController.Reading.{admitted-reads}

-- The patch is none of an HPA.
abbrev pub SparesHpas : Write → Type 0
SparesHpas (workload_patch ref replicas p) = Unit
SparesHpas (hpa_patch namespace name n) = ⊥

patch-SparesHpas : (c : Api) (wl : Workload) → Keeps SparesHpas (patch c wl)
unfolding patch patch_replicas_and_annotations
patch-SparesHpas c wl = Keeps-send c _ tt

module _ (r : NodeReconciler) (wl : Workload) (node_name : String)
    (managed : get (annotations wl) annotation_hpa_name ≢ "") where
  await_ready-SparesHpas : Keeps SparesHpas (await_ready r wl node_name)
  unfolding await_ready find_ready_pod_on_other_node
  await_ready-SparesHpas = search (keeps_rules, patch-SparesHpas) depth 9

  is_managed_here : (get (annotations wl) annotation_hpa_name == "") ≡ false
  is_managed_here = ground (arith, managed, eq_iff (get (annotations wl) annotation_hpa_name) "")

  handle_wait_ready-SparesHpas : Keeps SparesHpas (handle_wait_ready r wl node_name)
  unfolding handle_wait_ready
  handle_wait_ready-SparesHpas = rw is_managed_here await_ready-SparesHpas

  -- As long as a drain in the state scaled-up that records an HPA is in time, reconcileWorkload
  -- sends no patch of an HPA, so that a surge of the HPA that has failed is not tried again.
  pub scaled_up-SparesHpas :
      state_of wl ≡ DrainState.scaled_up
      → Keeps SparesHpas (reconcile_measured r in_time (state_of wl) wl node_name)
  unfolding reconcile_measured dispatch
  scaled_up-SparesHpas e =
      rw (e, reconcile_measured)
        (search
          (
            keeps_rules,
            admitted-reads (Writes SparesHpas) Keeps-emit r wl node_name DrainState.scaled_up,
            handle_wait_ready-SparesHpas,
          )
          depth 9)
