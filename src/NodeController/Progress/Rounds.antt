-- ===== src/NodeController/Progress/Rounds.antt =====
-- A drain by rounds: each is one reconcile of the object that the server holds.
use k8s_drain_surge.Base.{ℕ, String, ◌≡◌, true, false, none, List, [], arith, if◌then◌else◌}
use k8s_drain_surge.Base.Int.{ℤ, pos}
use k8s_drain_surge.Base.Maps.{GoMap, get}
use k8s_drain_surge.Config.{Config}
use k8s_drain_surge.State.{
  DrainState, annotation_hpa_original_min_replicas, clear_drain_annotations, drain_annotation_keys,
}
use k8s_drain_surge.State.Clearing.{erase_all-at}
use k8s_drain_surge.Kube.{Api, Pod, Hpa, Pdb}
use k8s_drain_surge.Session.Refused.{Refuses, Unapplied, stored-Unapplied}
use k8s_drain_surge.Workload.{
  Workload, rollout, deployment, annotations, object_ref, replicas_or_one, get_pod_selector,
}
use k8s_drain_surge.Workload.Patching.{MergePatch, Stored, is_owned}
use k8s_drain_surge.Scaler.{ready_elsewhere, on_node}
use k8s_drain_surge.NodeController.Abort.{NodeReconciler}
use k8s_drain_surge.NodeController.Reconcile.{reconcile_workload}
use k8s_drain_surge.NodeController.Reachable.{view}
use k8s_drain_surge.NodeController.Refused.{reconcile_workload-Inert}
use k8s_drain_surge.NodeController.Lifecycle.Refinement.{stored_after}
use k8s_drain_surge.NodeController.Progress.{Accepts, InTime, held, unmanaged}
use k8s_drain_surge.NodeController.Progress.Handlers.{Lists}
use k8s_drain_surge.NodeController.Progress.Start.{CanStart}
use k8s_drain_surge.NodeController.Progress.Steps.{IsHeldAt}
use k8s_drain_surge.NodeController.Progress.Phases.{
  becomes_ready, starts_draining, becomes_done, is_cleared,
}
use k8s_drain_surge.NodeController.Progress.Beginning.{begins}

-- One reconcile: the answers of the cluster to it, and the number of its first call.
pub record Round : Type 0 where
  pub client : Api
  pub calls : ℕ

module _ (mp : MergePatch) (config : Config) (wl : Workload) (node_name : String) where
  -- What the server holds after a reconcile of the object that it held.
  abbrev pub step : Round → Stored → Stored
  step round st =
      stored_after mp (record { client = round.client; config = config }) (held wl st) node_name
        round.calls st

-- The API server refuses every patch of this round.
abbrev pub IsOutage : Round → Type 0
IsOutage round = Refuses round.client

pub outage-Unapplied :
    (config : Config) (wl : Workload) (node_name : String) (round : Round) (st : Stored)
    → IsOutage round
    → Unapplied
        (reconcile_workload
          (record { client = round.client; config = config })
          (held wl st)
          node_name
          (record { calls = round.calls; history = [] })).1.history
outage-Unapplied config wl node_name round st refuses =
    (reconcile_workload-Inert (record { client = round.client; config = config }) refuses
        (held wl st) node_name).at
      (record { calls = round.calls; history = [] }) tt

-- It leaves the server as it is, whatever else the cluster answers and however late it is.
pub outage-idle :
    (mp : MergePatch) (config : Config) (wl : Workload) (node_name : String) (round : Round)
    (st : Stored)
    → IsOutage round
    → step mp config wl node_name round st ≡ st
outage-idle mp config wl node_name round st refuses =
    stored-Unapplied mp (object_ref (held wl st)) st _
      (outage-Unapplied config wl node_name round st refuses)

-- The cluster takes the patches of this round, which is in time for a drain that began in `first`.
pub record IsServing (config : Config) (first round : Round) : Type 0 where
  pub accepts : Accepts round.client
  pub timely : InTime first.client round.client config.readiness_timeout

-- What clearing leaves of annotations whose foreign part is that of `wl`.
pub cleared_at :
    (wl : Workload) (m : GoMap String)
    → ((k : String) → is_owned k ≡ false → m k ≡ annotations wl k)
    → (k : String) → clear_drain_annotations m k ≡ (if is_owned k then none else annotations wl k)
unfolding clear_drain_annotations
cleared_at wl m foreign k = ground (arith, erase_all-at drain_annotation_keys m k, foreign k)

pub first_step :
    (mp : MergePatch) (config : Config) (node_name : String) (first : Round) (wl : Workload)
    (hpas : List Hpa) (pdbs : List Pdb)
    → Accepts first.client
    → CanStart (record { client = first.client; config = config }) wl node_name hpas pdbs none
    → IsHeldAt first.client wl node_name
        (unmanaged (get (annotations wl) annotation_hpa_original_min_replicas))
        DrainState.scaled_up
        (pos 2)
        (step mp config wl node_name first (view wl))
first_step mp config node_name first (rollout ro) hpas pdbs accepts can =
    begins mp (record { client = first.client; config = config }) (rollout ro) node_name first.calls
      hpas pdbs accepts can
first_step mp config node_name first (deployment d) hpas pdbs accepts can =
    begins mp (record { client = first.client; config = config }) (deployment d) node_name
      first.calls hpas pdbs accepts can

module _ (mp : MergePatch) (config : Config) (node_name : String) (first round : Round)
    (serving : IsServing config first round) (minimum : String) (st : Stored) (n : ℤ) where
  abbrev reconciler : NodeReconciler
  reconciler = record { client = round.client; config = config }

  pub ready_step :
      (wl : Workload) (pods : List Pod)
      → IsHeldAt first.client wl node_name (unmanaged minimum) DrainState.scaled_up (pos 2) st
      → Lists round.client wl pods
      → ready_elsewhere node_name pods ≡ true
      → IsHeldAt first.client wl node_name
          (unmanaged minimum)
          DrainState.ready
          (pos 2)
          (step mp config wl node_name round st)
  unfolding get_pod_selector
  ready_step (rollout ro) pods at lists ready =
      becomes_ready mp first.client reconciler (rollout ro) (held (rollout ro) st) node_name minimum
        round.calls serving.accepts serving.timely pods at lists ready
  ready_step (deployment d) pods at lists ready =
      becomes_ready mp first.client reconciler (deployment d) (held (deployment d) st) node_name
        minimum round.calls serving.accepts serving.timely pods at lists ready

  pub draining_step :
      (wl : Workload) (pods : List Pod)
      → IsHeldAt first.client wl node_name (unmanaged minimum) DrainState.ready n st
      → Lists round.client wl pods
      → on_node node_name pods ≡ false
      → IsHeldAt first.client wl node_name
          (unmanaged minimum)
          DrainState.draining
          (pos 1)
          (step mp config wl node_name round st)
  unfolding get_pod_selector
  draining_step (rollout ro) pods at lists gone =
      starts_draining mp first.client reconciler (rollout ro) (held (rollout ro) st) node_name
        minimum round.calls serving.accepts serving.timely n pods at lists gone
  draining_step (deployment d) pods at lists gone =
      starts_draining mp first.client reconciler (deployment d) (held (deployment d) st) node_name
        minimum round.calls serving.accepts serving.timely n pods at lists gone

  pub done_step :
      (wl : Workload)
      → IsHeldAt first.client wl node_name (unmanaged minimum) DrainState.draining n st
      → IsHeldAt first.client wl node_name
          (unmanaged minimum)
          DrainState.done
          (pos 1)
          (step mp config wl node_name round st)
  done_step (rollout ro) at =
      becomes_done mp first.client reconciler (rollout ro) (held (rollout ro) st) node_name minimum
        round.calls serving.accepts serving.timely n at
  done_step (deployment d) at =
      becomes_done mp first.client reconciler (deployment d) (held (deployment d) st) node_name
        minimum round.calls serving.accepts serving.timely n at

  -- The last reconcile takes the bookkeeping off.
  pub last_step :
      (wl : Workload)
      → IsHeldAt first.client wl node_name (unmanaged minimum) DrainState.done n st
      → let final = step mp config wl node_name round st in
        (replicas_or_one final.replicas ≡ n)
        × ((k : String) → final.annotations k ≡ (if is_owned k then none else annotations wl k))
  last_step (rollout ro) at =
      rw
        (is_cleared mp first.client reconciler (rollout ro) (held (rollout ro) st) node_name minimum
          round.calls serving.accepts serving.timely n at)
        (at.at_replicas, cleared_at (rollout ro) st.annotations at.foreign)
  last_step (deployment d) at =
      rw
        (is_cleared mp first.client reconciler (deployment d) (held (deployment d) st) node_name
          minimum round.calls serving.accepts serving.timely n at)
        (at.at_replicas, cleared_at (deployment d) st.annotations at.foreign)
