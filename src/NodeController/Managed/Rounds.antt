-- ===== src/NodeController/Managed/Rounds.antt =====
-- A drain with an HPA by rounds: the workload and the HPA in the server.
use k8s_drain_surge.Base.{
  String, ◌≡◌, refl, true, false, Option, none, some, List, [], if◌then◌else◌,
}
use k8s_drain_surge.Base.Int.{ℤ, pos}
use k8s_drain_surge.Config.{Config}
use k8s_drain_surge.State.{DrainState}
use k8s_drain_surge.Kube.{Pod, Hpa, Pdb}
use k8s_drain_surge.Workload.{
  Workload, rollout, deployment, annotations, object_meta, replicas_or_one, get_pod_selector,
}
use k8s_drain_surge.Workload.Patching.{MergePatch, Stored, is_owned}
use k8s_drain_surge.Scaler.{ready_elsewhere, on_node, hpa_min_replicas_or_default}
use k8s_drain_surge.NodeController.Abort.{NodeReconciler}
use k8s_drain_surge.NodeController.Reconcile.{reconcile_workload}
use k8s_drain_surge.NodeController.Reachable.{view}
use k8s_drain_surge.NodeController.Lifecycle.Refinement.{stored_after}
use k8s_drain_surge.NodeController.Progress.{Accepts, held}
use k8s_drain_surge.NodeController.Progress.Handlers.{Lists}
use k8s_drain_surge.NodeController.Progress.Start.{CanStart, HasRoom}
use k8s_drain_surge.NodeController.Progress.Steps.{IsHeldAt}
use k8s_drain_surge.NodeController.Progress.Rounds.{
  Round, IsOutage, IsServing, cleared_at, outage-idle, outage-Unapplied,
}
use k8s_drain_surge.NodeController.Managed.{noted, minimum_after, minimum_after-Unapplied}
use k8s_drain_surge.NodeController.Managed.Start.{managed_begins, minimum_begins}
use k8s_drain_surge.NodeController.Managed.Phases.{
  managed_becomes_ready, managed_starts_draining, managed_becomes_done, managed_is_cleared,
}

-- The workload, and spec.minReplicas of its HPA, in the server.
pub record Scaled : Type 0 where
  pub workload : Stored
  pub min_replicas : Option ℤ

-- The HPA's controller sets the replicas.
abbrev pub scale : Option ℤ → Scaled → Scaled
scale n x = record x { workload = record { replicas = n; annotations = x.workload.annotations } }

module _ (mp : MergePatch) (config : Config) (wl : Workload) (node_name : String) (hpa : Hpa) where
  -- What the server holds after a reconcile of the workload that it held.
  abbrev pub managed_step : Round → Scaled → Scaled
  managed_step round x =
      let r : NodeReconciler = record { client = round.client; config = config } in
      record {
        workload = stored_after mp r (held wl x.workload) node_name round.calls x.workload;
        min_replicas =
            minimum_after (object_meta wl).namespace hpa.name x.min_replicas
              (reconcile_workload r (held wl x.workload) node_name
                (record { calls = round.calls; history = [] })).1.history;
      }

-- An outage leaves both as they are.
pub managed_outage-idle :
    (mp : MergePatch) (config : Config) (wl : Workload) (node_name : String) (hpa : Hpa)
    (round : Round) (x : Scaled)
    → IsOutage round
    → managed_step mp config wl node_name hpa round x ≡ x
managed_outage-idle mp config wl node_name hpa round x refuses =
    rw
      (
        outage-idle mp config wl node_name round x.workload refuses,
        minimum_after-Unapplied (object_meta wl).namespace hpa.name x.min_replicas _
            (outage-Unapplied config wl node_name round x.workload refuses),
      )
      refl

-- Whatever the number of replicas, the drain is where it was.
scaled-IsHeldAt :
    (first : Round) (wl : Workload) (node_name : String) (hpa : Hpa) (state : DrainState) {n : ℤ}
    (count : Option ℤ) (x : Scaled)
    → IsHeldAt first.client wl node_name (noted hpa) state n x.workload
    → IsHeldAt first.client wl node_name
        (noted hpa)
        state
        (replicas_or_one count)
        (scale count x).workload
scaled-IsHeldAt first wl node_name hpa state count x at = record {
  at_state = at.at_state;
  at_replicas = refl;
  original = at.original;
  node = at.node;
  hpa = at.hpa;
  minimum = at.minimum;
  stamp = at.stamp;
  foreign = at.foreign;
}

module _ (mp : MergePatch) (config : Config) (node_name : String) (hpa : Hpa) (has : HasRoom hpa)
    (first round : Round) (serving : IsServing config first round) (count : Option ℤ)
    (x : Scaled) where
  abbrev pub reconciler : NodeReconciler
  reconciler = record { client = round.client; config = config }

  -- After this round the drain is at that state, and the HPA has this minReplicas.
  abbrev pub IsScaledAt : Workload → DrainState → Option ℤ → Type 0
  IsScaledAt wl state minimum =
      let x' = managed_step mp config wl node_name hpa round (scale count x) in
      IsHeldAt first.client wl node_name (noted hpa) state (replicas_or_one count) x'.workload
      × (x'.min_replicas ≡ minimum)

  pub ready_step :
      {n : ℤ} (wl : Workload) (pods : List Pod)
      → IsHeldAt first.client wl node_name (noted hpa) DrainState.scaled_up n x.workload
      → Lists round.client wl pods
      → ready_elsewhere node_name pods ≡ true
      → IsScaledAt wl DrainState.ready x.min_replicas
  unfolding get_pod_selector
  ready_step (rollout ro) pods at lists ready =
      managed_becomes_ready mp first.client reconciler (rollout ro)
        (held (rollout ro) (scale count x).workload) node_name round.calls hpa has serving.accepts
        serving.timely _ x.min_replicas pods (scaled-IsHeldAt first _ _ hpa _ count x at) lists
        ready
  ready_step (deployment d) pods at lists ready =
      managed_becomes_ready mp first.client reconciler (deployment d)
        (held (deployment d) (scale count x).workload) node_name round.calls hpa has serving.accepts
        serving.timely _ x.min_replicas pods (scaled-IsHeldAt first _ _ hpa _ count x at) lists
        ready

  pub draining_step :
      {n : ℤ} (wl : Workload) (pods : List Pod)
      → IsHeldAt first.client wl node_name (noted hpa) DrainState.ready n x.workload
      → Lists round.client wl pods
      → on_node node_name pods ≡ false
      → IsScaledAt wl DrainState.draining (some (hpa_min_replicas_or_default hpa))
  unfolding get_pod_selector
  draining_step (rollout ro) pods at lists gone =
      managed_starts_draining mp first.client reconciler (rollout ro)
        (held (rollout ro) (scale count x).workload) node_name round.calls hpa has serving.accepts
        serving.timely _ x.min_replicas pods (scaled-IsHeldAt first _ _ hpa _ count x at) lists gone
  draining_step (deployment d) pods at lists gone =
      managed_starts_draining mp first.client reconciler (deployment d)
        (held (deployment d) (scale count x).workload) node_name round.calls hpa has serving.accepts
        serving.timely _ x.min_replicas pods (scaled-IsHeldAt first _ _ hpa _ count x at) lists gone

  pub done_step :
      {n : ℤ} (wl : Workload)
      → IsHeldAt first.client wl node_name (noted hpa) DrainState.draining n x.workload
      → IsScaledAt wl DrainState.done x.min_replicas
  done_step (rollout ro) at =
      managed_becomes_done mp first.client reconciler (rollout ro)
        (held (rollout ro) (scale count x).workload) node_name round.calls hpa has serving.accepts
        serving.timely _ x.min_replicas (scaled-IsHeldAt first _ _ hpa _ count x at)
  done_step (deployment d) at =
      managed_becomes_done mp first.client reconciler (deployment d)
        (held (deployment d) (scale count x).workload) node_name round.calls hpa has serving.accepts
        serving.timely _ x.min_replicas (scaled-IsHeldAt first _ _ hpa _ count x at)

  -- The last reconcile takes the bookkeeping off.
  pub last_step :
      {n : ℤ} (wl : Workload)
      → IsHeldAt first.client wl node_name (noted hpa) DrainState.done n x.workload
      → let final = managed_step mp config wl node_name hpa round (scale count x) in
        (final.workload.replicas ≡ count)
        × ((k : String)
            → final.workload.annotations k ≡ (if is_owned k then none else annotations wl k))
        × (final.min_replicas ≡ x.min_replicas)
  last_step (rollout ro) at =
      let (e, same) =
        managed_is_cleared mp first.client reconciler (rollout ro)
          (held (rollout ro) (scale count x).workload) node_name round.calls hpa has serving.accepts
          serving.timely _ x.min_replicas (scaled-IsHeldAt first _ _ hpa _ count x at) in
      (rw e refl, rw e (cleared_at (rollout ro) x.workload.annotations at.foreign), same)
  last_step (deployment d) at =
      let (e, same) =
        managed_is_cleared mp first.client reconciler (deployment d)
          (held (deployment d) (scale count x).workload) node_name round.calls hpa has
          serving.accepts serving.timely _ x.min_replicas
          (scaled-IsHeldAt first _ _ hpa _ count x at) in
      (rw e refl, rw e (cleared_at (deployment d) x.workload.annotations at.foreign), same)

-- The first reconcile records the HPA, and raises its minReplicas.
pub first_step :
    (mp : MergePatch) (config : Config) (node_name : String) (hpa : Hpa) (first : Round)
    (wl : Workload) (hpas : List Hpa) (pdbs : List Pdb) (minimum : Option ℤ)
    → Accepts first.client
    → CanStart (record { client = first.client; config = config }) wl node_name hpas pdbs (some hpa)
    → let surged =
        managed_step mp config wl node_name hpa first
          (record { workload = view wl; min_replicas = minimum }) in
      IsHeldAt first.client wl node_name (noted hpa) DrainState.scaled_up (pos 1) surged.workload
      × (surged.min_replicas ≡ some (pos 2))
first_step mp config node_name hpa first (rollout ro) hpas pdbs minimum accepts can =
    let r : NodeReconciler = record { client = first.client; config = config } in
    (
      managed_begins mp r (rollout ro) node_name first.calls hpas pdbs hpa accepts can,
      minimum_begins mp r (rollout ro) node_name first.calls hpas pdbs hpa accepts can minimum,
    )
first_step mp config node_name hpa first (deployment d) hpas pdbs minimum accepts can =
    let r : NodeReconciler = record { client = first.client; config = config } in
    (
      managed_begins mp r (deployment d) node_name first.calls hpas pdbs hpa accepts can,
      minimum_begins mp r (deployment d) node_name first.calls hpas pdbs hpa accepts can minimum,
    )
