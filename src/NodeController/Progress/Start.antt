-- ===== src/NodeController/Progress/Start.antt =====
-- How the drain of a workload starts, without an HPA and with one.
use k8s_drain_surge.Base.{
  ℕ, suc, String, ◌≡◌, ◌≢◌, refl, true, false, Option, none, some, List, ◌∷◌, arith, eq_iff,
}
use k8s_drain_surge.Base.Int.{ℤ, pos, negsuc, ltb_ℤ, leb_ℤ, eqb_ℤ_iff, InRange, half32}
use k8s_drain_surge.Base.Maps.{get}
use k8s_drain_surge.Errors.{ok}
use k8s_drain_surge.State.{DrainState, annotation_hpa_name}
use k8s_drain_surge.Kube.{Hpa, Pdb, requirements}
use k8s_drain_surge.Session.{Session, applied, event, normal, ◌>>=◌}
use k8s_drain_surge.Workload.{
  Workload, rollout, deployment, annotations, object_ref, object_meta, get_object_kind,
  get_pod_selector, get_replicas, set_replicas, is_stable, can_surge,
}
use k8s_drain_surge.Scaler.{
  hpa_min_replicas_or_default, is_hpa_at_min_replicas, find_matching_hpa, first_hpa,
  find_matching_pdb, any_pdb_covers,
}
use k8s_drain_surge.NodeController.Abort.{NodeReconciler}
use k8s_drain_surge.NodeController.Handlers.{
  handle_pending, surge_started, surge_target, surge_replicas,
}
use k8s_drain_surge.NodeController.Reconcile.{
  state_of, reconcile_workload, measure_overrun, reconcile_measured, admitted, dispatch,
  should_process, hpa_check, hpa_allows, drained_elsewhere,
}
use k8s_drain_surge.NodeController.Progress.{Accepts, patch_to, history-patch}

-- The HPA has a name and an int32 as its minReplicas, which is below 2, and allows 2 replicas.
pub record HasRoom (hpa : Hpa) : Type 0 where
  pub named : hpa.name ≢ ""
  pub fits : InRange half32 (hpa_min_replicas_or_default hpa)
  pub room : ltb_ℤ hpa.max_replicas (pos 2) ≡ false
  pub below : is_hpa_at_min_replicas hpa (pos 2) ≡ false

-- The HPA that was found has room; without one, none is recorded.
abbrev pub Allows : Workload → Option Hpa → Type 0
Allows wl none = get (annotations wl) annotation_hpa_name ≡ ""
Allows wl (some hpa) = HasRoom hpa

-- The workload may be drained, a disruption budget covers it, and `found` is its HPA.
pub record CanStart (r : NodeReconciler) (wl : Workload) (node_name : String) (hpas : List Hpa)
    (pdbs : List Pdb) (found : Option Hpa) : Type 0 where
  pub idle : state_of wl ≡ DrainState.none
  pub opted_in : get (annotations wl) r.config.enabled_annotation ≡ "true"
  pub single : get_replicas wl ≡ pos 1
  pub stable : is_stable wl ≡ true
  pub free : drained_elsewhere r wl node_name ≡ false
  pub surgeable : can_surge wl ≡ true
  pub lists_hpas : (k : ℕ) → r.client.list_hpas k (object_meta wl).namespace ≡ ok hpas
  pub finds : first_hpa (object_meta wl).name (get_object_kind wl) hpas ≡ found
  pub allows : Allows wl found
  pub lists_pdbs : (k : ℕ) → r.client.list_pdbs k (object_meta wl).namespace ≡ ok pdbs
  pub covered : any_pdb_covers r.client pdbs (requirements (get_pod_selector r.client wl)) ≡ true

-- The object that starts the drain, with the time of the run's third call.
abbrev pub surged : NodeReconciler → Workload → String → ℕ → Workload
surged r wl node_name calls =
    set_replicas (surge_target (get_replicas wl))
      (surge_started r.client wl node_name (r.client.now (suc (suc calls))))

pub object_ref-surged :
    (r : NodeReconciler) (wl : Workload) (node_name : String) (calls : ℕ)
    → object_ref (surged r wl node_name calls) ≡ object_ref wl
unfolding surge_started
object_ref-surged r (rollout ro) node_name calls = refl
object_ref-surged r (deployment d) node_name calls = refl

has_room : (z : ℤ) → ltb_ℤ z (pos 2) ≡ false → leb_ℤ z (pos 1) ≡ false
has_room (pos n) h = ground arith
has_room (negsuc n) h = ground arith

hpa_allowed :
    (r : NodeReconciler) (wl : Workload) (s : Session) (found : Option Hpa)
    → Allows wl found
    → hpa_allows r wl (ok found) s ≡ (ok true, s)
unfolding hpa_allows ◌>>=◌
hpa_allowed r wl s none h = refl
hpa_allowed r wl s (some hpa) h = rw (has_room hpa.max_replicas h.room) refl

module _ (r : NodeReconciler) (wl : Workload) (node_name : String) (s : Session) (hpas : List Hpa)
    (pdbs : List Pdb) {found : Option Hpa} (can : CanStart r wl node_name hpas pdbs found) where
  should_process-quiet :
      should_process r wl node_name s ≡ (ok true, record s { calls = suc s.calls })
  unfolding should_process hpa_check find_matching_hpa ◌>>=◌
  should_process-quiet = ground (
    arith,
    eq_iff (get (annotations wl) r.config.enabled_annotation) "true",
    eqb_ℤ_iff (get_replicas wl) (pos 1),
    can,
    can.lists_hpas s.calls,
    hpa_allowed r wl (record s { calls = suc s.calls }) found can.allows,
  )

  pub reconcile_workload-started :
      reconcile_workload r wl node_name s
      ≡ handle_pending r wl node_name (record s { calls = suc s.calls })
  unfolding reconcile_workload measure_overrun reconcile_measured admitted dispatch ◌>>=◌
  reconcile_workload-started =
      rw (can.idle, reconcile_workload) (ground (arith, should_process-quiet))

module _ (r : NodeReconciler) (wl : Workload) (node_name : String) (s : Session) (hpas : List Hpa)
    (pdbs : List Pdb) where
  -- What starts the drain: an event and one patch.
  pub history-started :
      CanStart r wl node_name hpas pdbs none
      → Accepts r.client
      → (reconcile_workload r wl node_name s).1.history
        ≡ applied (patch_to wl (surged r wl node_name s.calls))
          ∷ event
              (object_ref (surge_started r.client wl node_name (r.client.now (suc (suc s.calls)))))
              normal
              "DrainSurge"
          ∷ s.history
  unfolding handle_pending find_matching_pdb find_matching_hpa surge_replicas ◌>>=◌
  history-started can accepts = rw (reconcile_workload-started r wl node_name s hpas pdbs can) (
      ground (
        arith,
        can.covered,
        can.finds,
        can.lists_pdbs (suc s.calls),
        can.lists_hpas (suc (suc (suc s.calls))),
        history-patch r.client wl (surged r wl node_name s.calls)
            (record {
              calls = suc (suc (suc (suc s.calls)));
              history =
                  event
                    (object_ref
                      (surge_started r.client wl node_name (r.client.now (suc (suc s.calls)))))
                    normal "DrainSurge"
                  ∷ s.history;
            })
            accepts (object_ref-surged r wl node_name s.calls),
      ))
