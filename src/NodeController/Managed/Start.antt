-- ===== src/NodeController/Managed/Start.antt =====
-- How the drain of a workload with an HPA begins: the record in the workload, and the HPA's patch.
use k8s_drain_surge.Base.{
  ℕ, suc, String, ◌≡◌, refl, false, Option, some, List, [], ◌∷◌, arith, eq_iff,
}
use k8s_drain_surge.Base.Int.{ℤ, pos}
use k8s_drain_surge.State.{DrainState}
use k8s_drain_surge.State.Clearing.{drain_state-text}
use k8s_drain_surge.Kube.{Api, Hpa, Pdb, Time, hpa_patch}
use k8s_drain_surge.Session.{Session, applied, event, normal, ◌>>=◌}
use k8s_drain_surge.Workload.{
  Workload, rollout, deployment, annotations, object_ref, object_meta, get_replicas,
}
use k8s_drain_surge.Workload.Patching.{MergePatch, stored, apply_effect, is_owned}
use k8s_drain_surge.Scaler.{find_matching_hpa, find_matching_pdb}
use k8s_drain_surge.NodeController.Abort.{NodeReconciler}
use k8s_drain_surge.NodeController.Handlers.{surge_started, surge_hpa, handle_pending}
use k8s_drain_surge.NodeController.Reconcile.{reconcile_workload}
use k8s_drain_surge.NodeController.Restoring.{with_hpa}
use k8s_drain_surge.NodeController.Recorded.Start.{itoa-one}
use k8s_drain_surge.NodeController.Recorded.Laws.{original_one}
use k8s_drain_surge.NodeController.Lifecycle.{surge_target-one}
use k8s_drain_surge.NodeController.Reachable.{view}
use k8s_drain_surge.NodeController.Lifecycle.Refinement.{stored_after}
use k8s_drain_surge.NodeController.Progress.{Accepts, patch_to, history-patch, stored-patch_to}
use k8s_drain_surge.NodeController.Progress.Start.{CanStart, HasRoom, reconcile_workload-started}
use k8s_drain_surge.NodeController.Progress.Steps.{IsHeldAt}
use k8s_drain_surge.NodeController.Managed.{noted, minimum_after, history-patch_hpa}

-- The object that starts the drain, with the time of the run's third call.
abbrev pub recorded : NodeReconciler → Workload → String → ℕ → Hpa → Workload
recorded r wl node_name calls hpa =
    with_hpa hpa (surge_started r.client wl node_name (r.client.now (suc (suc calls))))

object_ref-recorded :
    (r : NodeReconciler) (wl : Workload) (node_name : String) (calls : ℕ) (hpa : Hpa)
    → object_ref (recorded r wl node_name calls hpa) ≡ object_ref wl
unfolding surge_started
object_ref-recorded r (rollout ro) node_name calls hpa = refl
object_ref-recorded r (deployment d) node_name calls hpa = refl

surge_hpa-accepted :
    (r : NodeReconciler) (base wl : Workload) (hpa : Hpa) (s : Session)
    → Accepts r.client
    → HasRoom hpa
    → object_ref (with_hpa hpa wl) ≡ object_ref base
    → (surge_hpa r wl (pos 1) hpa s).1.history
      ≡ event (object_ref wl) normal "DrainSurge"
        ∷ applied (hpa_patch (object_meta wl).namespace hpa.name (pos 2))
        ∷ applied (patch_to base (with_hpa hpa wl))
        ∷ s.history
unfolding surge_hpa ◌>>=◌
surge_hpa-accepted r base wl hpa s accepts has same = rw surge_target-one (
    ground (
      arith,
      has.room,
      has.below,
      history-patch r.client base (with_hpa hpa wl) s accepts same,
      history-patch_hpa r.client (object_meta wl).namespace hpa.name (pos 2)
          (record s {
            calls = suc s.calls;
            history = applied (patch_to base (with_hpa hpa wl)) ∷ s.history;
          })
          accepts,
    ))

-- What starts the drain: the patch that records it, the patch of the HPA, and an event.
history-recorded :
    (r : NodeReconciler) (wl : Workload) (node_name : String) (s : Session) (hpas : List Hpa)
    (pdbs : List Pdb) (hpa : Hpa)
    → CanStart r wl node_name hpas pdbs (some hpa)
    → Accepts r.client
    → let started = surge_started r.client wl node_name (r.client.now (suc (suc s.calls))) in
      (reconcile_workload r wl node_name s).1.history
      ≡ event (object_ref started) normal "DrainSurge"
        ∷ applied (hpa_patch (object_meta started).namespace hpa.name (pos 2))
        ∷ applied (patch_to wl (recorded r wl node_name s.calls hpa))
        ∷ s.history
unfolding handle_pending find_matching_pdb find_matching_hpa ◌>>=◌
history-recorded r wl node_name s hpas pdbs hpa can accepts =
    rw (reconcile_workload-started r wl node_name s hpas pdbs can) (
      ground (
        arith,
        can.covered,
        can.finds,
        can.single,
        can.lists_pdbs (suc s.calls),
        can.lists_hpas (suc (suc (suc s.calls))),
        surge_hpa-accepted r wl
            (surge_started r.client wl node_name (r.client.now (suc (suc s.calls)))) hpa
            (record s { calls = suc (suc (suc (suc s.calls))) }) accepts can.allows
            (object_ref-recorded r wl node_name s.calls hpa),
      ))

recorded-IsHeldAt :
    (r : NodeReconciler) (wl : Workload) (node_name : String) (calls : ℕ) (hpa : Hpa)
    → get_replicas wl ≡ pos 1
    → IsHeldAt r.client wl node_name
        (noted hpa)
        DrainState.scaled_up
        (pos 1)
        (view (recorded r wl node_name calls hpa))
unfolding surge_started
recorded-IsHeldAt r (rollout ro) node_name calls hpa one =
    rw (one, itoa-one)
      (record {
        at_state = drain_state-text.1;
        at_replicas = one;
        original = original_one _ refl;
        node = refl;
        hpa = refl;
        minimum = refl;
        stamp = record { call = suc (suc calls); shown = refl };
        foreign = λ k owned. ground (arith, owned);
      })
recorded-IsHeldAt r (deployment d) node_name calls hpa one =
    rw (one, itoa-one)
      (record {
        at_state = drain_state-text.1;
        at_replicas = one;
        original = original_one _ refl;
        node = refl;
        hpa = refl;
        minimum = refl;
        stamp = record { call = suc (suc calls); shown = refl };
        foreign = λ k owned. ground (arith, owned);
      })

foreign-recorded :
    (r : NodeReconciler) (wl : Workload) (node_name : String) (calls : ℕ) (hpa : Hpa) (k : String)
    → is_owned k ≡ false
    → annotations (recorded r wl node_name calls hpa) k ≡ annotations wl k
unfolding surge_started
foreign-recorded r (rollout ro) node_name calls hpa k foreign = ground (arith, foreign)
foreign-recorded r (deployment d) node_name calls hpa k foreign = ground (arith, foreign)

namespace-started :
    (c : Api) (wl : Workload) (node_name : String) (start : Time)
    → (object_meta (surge_started c wl node_name start)).namespace ≡ (object_meta wl).namespace
unfolding surge_started
namespace-started c (rollout ro) node_name start = refl
namespace-started c (deployment d) node_name start = refl

module _ (mp : MergePatch) (r : NodeReconciler) (wl : Workload) (node_name : String) (calls : ℕ)
    (hpas : List Hpa) (pdbs : List Pdb) (hpa : Hpa) (accepts : Accepts r.client)
    (can : CanStart r wl node_name hpas pdbs (some hpa)) where
  -- A workload at rest with an HPA goes to the state scaled-up, and keeps its replicas.
  pub managed_begins :
      IsHeldAt r.client wl node_name
        (noted hpa)
        DrainState.scaled_up
        (pos 1)
        (stored_after mp r wl node_name calls (view wl))
  unfolding stored apply_effect
  managed_begins =
      rw
        (
          history-recorded r wl node_name (record { calls = calls; history = [] }) hpas pdbs hpa can
              accepts,
          stored-patch_to mp wl (recorded r wl node_name calls hpa) (view wl) []
              (foreign-recorded r wl node_name calls hpa) refl,
        )
        (recorded-IsHeldAt r wl node_name calls hpa can.single)

  -- The minReplicas of its HPA become 2.
  pub minimum_begins :
      (minimum : Option ℤ)
      → minimum_after
          (object_meta wl).namespace
          hpa.name
          minimum
          (reconcile_workload r wl node_name (record { calls = calls; history = [] })).1.history
        ≡ some (pos 2)
  unfolding minimum_after
  minimum_begins minimum =
      rw
        (
          history-recorded r wl node_name (record { calls = calls; history = [] }) hpas pdbs hpa can
              accepts,
          namespace-started r.client wl node_name (r.client.now (suc (suc calls))),
        )
        (ground (
          arith,
          eq_iff (object_meta wl).namespace (object_meta wl).namespace,
          eq_iff hpa.name hpa.name,
        ))
