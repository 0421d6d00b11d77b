-- ===== src/Sharing/Runs.antt =====
-- Runs of both reconcilers on one Rollout, with stale caches and changes from outside.
use k8s_drain_surge.Base.{ℕ, String, ◌≡◌, ◌≢◌, inl, Option, List, []}
use k8s_drain_surge.Base.Maps.{get}
use k8s_drain_surge.Config.{Config}
use k8s_drain_surge.State.{DrainState, annotation_original_replicas}
use k8s_drain_surge.Kube.{Api, Rollout, Time}
use k8s_drain_surge.Session.{Effect, Exec}
use k8s_drain_surge.Session.Keeps.{Keeps}
use k8s_drain_surge.Workload.{rollout, annotations, object_ref}
use k8s_drain_surge.Workload.Patching.{MergePatch, stored}
use k8s_drain_surge.NodeController.Abort.{Outcome, abort_workload}
use k8s_drain_surge.NodeController.Reconcile.{state_of, reconcile_workload}
use k8s_drain_surge.NodeController.Recorded.{Fine, abort_workload-Keeps}
use k8s_drain_surge.NodeController.Recorded.Reconcile.{reconcile_workload-Keeps}
use k8s_drain_surge.NodeController.Reachable.{AgreeOnOwned, view, stored-kept}
use k8s_drain_surge.RolloutController.Abort.{abort_restart_surge}
use k8s_drain_surge.RolloutController.Reconcile.{restart_state_of, reconcile_restart}
use k8s_drain_surge.Sharing.{IsShared, IsShared-AgreeOnOwned, IsShared-Bookkeeping}
use k8s_drain_surge.Sharing.Surges.{Kept, abort_restart_surge-Keeps}
use k8s_drain_surge.Sharing.Reconcile.{reconcile_restart-Keeps}

-- What can happen to a Rollout: the node reconciler works on its drain for a node, or gives the drain
-- up (for a node without the taint, or in the recovery scan); the rollout reconciler works on its
-- restart-surge, or gives that up in its scan.
pub data Act : Type 0 where
  drain : String → Act
  give_drain_up : Act
  surge : Act
  give_surge_up : Act

-- A drain is for a node with a name.
abbrev pub IsNamed : Act → Type 0
IsNamed (drain node_name) = node_name ≢ ""
IsNamed _ = Unit

-- The cluster, and the clock that a test injects into the rollout reconciler.
pub record Surroundings : Type 0 where
  pub client : Api
  pub now : Option (ℕ → Time)
  pub calls : ℕ

module _ (config : Config) (around : Surroundings) where
  abbrev pub action : Act → Rollout → Exec Outcome
  action (drain node_name) ro =
      reconcile_workload (record { client = around.client; config = config }) (rollout ro) node_name
  action give_drain_up ro =
      abort_workload (record { client = around.client; config = config }) (rollout ro)
  action surge ro =
      reconcile_restart (record { client = around.client; config = config; now = around.now }) ro
  action give_surge_up ro =
      abort_restart_surge (record { client = around.client; config = config; now = around.now }) ro

  -- The effects of the action on the cached Rollout.
  abbrev pub effects : Act → Rollout → List Effect
  effects act ro = (action act ro (record { calls = around.calls; history = [] })).1.history

  action-Keeps :
      (act : Act) (ro : Rollout)
      → IsNamed act
      → Kept (rollout ro)
      → Keeps (Fine IsShared) (action act ro)
  action-Keeps (drain node_name) ro named h =
      reconcile_workload-Keeps IsShared-Bookkeeping _ (rollout ro) node_name named h
  action-Keeps give_drain_up ro named h = abort_workload-Keeps IsShared-Bookkeeping _ (rollout ro)
  action-Keeps surge ro named h = reconcile_restart-Keeps _ ro h
  action-Keeps give_surge_up ro named h = abort_restart_surge-Keeps _ ro h

-- The Rollout as the server holds it, along a run. A reconciler acts on a copy from its cache, which
-- may be any earlier state of the Rollout; the cluster answers as it likes. Everything but the owned
-- annotations may change at any time.
pub data SharedRun (mp : MergePatch) (config : Config) : Rollout → Type 0 where
  fresh :
      (ro : Rollout)
      → state_of (rollout ro) ≡ DrainState.none
      → restart_state_of ro ≡ DrainState.none
      → get (annotations (rollout ro)) annotation_original_replicas ≡ ""
      → SharedRun mp config ro
  outside :
      (server next : Rollout)
      → SharedRun mp config server
      → AgreeOnOwned (annotations (rollout server)) (annotations (rollout next))
      → SharedRun mp config next
  acted :
      (act : Act) (around : Surroundings) (cached server next : Rollout)
      → SharedRun mp config cached
      → SharedRun mp config server
      → IsNamed act
      → AgreeOnOwned
          (stored mp
            (object_ref (rollout cached))
            (view (rollout server))
            (effects config around act cached)).annotations
          (annotations (rollout next))
      → SharedRun mp config next

fresh-IsShared :
    (ro : Rollout)
    → state_of (rollout ro) ≡ DrainState.none
    → restart_state_of ro ≡ DrainState.none
    → get (annotations (rollout ro)) annotation_original_replicas ≡ ""
    → Kept (rollout ro)
fresh-IsShared ro no_drain no_surge no_count = record {
  drain_known = rw no_drain tt;
  surge_known = rw no_surge tt;
  node = λ started. absurd (started no_drain);
  original = inl no_count;
  surging = λ started. absurd (started no_surge);
}

-- In every run of both reconcilers on one Rollout that begins with nothing recorded and in which
-- nobody else changes the owned annotations, with stale caches, failing calls, drains given up and
-- other changes from outside, both recorded states are ones that the controller writes, a drain
-- names its node, a restart-surge has an original replica count, and that count is 1 wherever it is
-- recorded.
pub SharedRun-IsShared :
    (mp : MergePatch) (config : Config) (ro : Rollout)
    → SharedRun mp config ro
    → IsShared (annotations (rollout ro))
SharedRun-IsShared mp config ro (fresh _ no_drain no_surge no_count) =
    fresh-IsShared ro no_drain no_surge no_count
SharedRun-IsShared mp config ro (outside server next rs same) =
    IsShared-AgreeOnOwned _ _ same (SharedRun-IsShared mp config server rs)
SharedRun-IsShared mp config ro (acted act around cached server next rc rs named same) =
    IsShared-AgreeOnOwned _ _ same (
      stored-kept IsShared-AgreeOnOwned mp (object_ref (rollout cached)) (view (rollout server)) _
        ((action-Keeps config around act cached named (SharedRun-IsShared mp config cached rc)).at
          (record { calls = around.calls; history = [] }) tt)
        (SharedRun-IsShared mp config server rs))
