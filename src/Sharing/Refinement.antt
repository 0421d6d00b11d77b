-- ===== src/Sharing/Refinement.antt =====
-- The rollout reconciler against the abstract machine, in runs of both reconcilers.
use k8s_drain_surge.Base.{String, ◌≡◌, ◌⊎◌, refl, Option, []}
use k8s_drain_surge.Base.Int.{ℤ}
use k8s_drain_surge.Base.Maps.{GoMap, get}
use k8s_drain_surge.Config.{Config}
use k8s_drain_surge.State.{drain_state, annotation_hpa_name, annotation_restart_surge_state}
use k8s_drain_surge.Kube.{ObjectRef, Rollout, workload_patch}
use k8s_drain_surge.Workload.{rollout, object_ref, get_replicas, replicas_or_one}
use k8s_drain_surge.Workload.Patching.{MergePatch, Stored, stored}
use k8s_drain_surge.NodeController.Lifecycle.{is_managed}
use k8s_drain_surge.NodeController.Lifecycle.Refinement.{get-merge, stored-either}
use k8s_drain_surge.RolloutController.Reconcile.{restart_state_of, drain_in_progress}
use k8s_drain_surge.RolloutController.Lifecycle.{SurgeFollows, SurgeMoves}
use k8s_drain_surge.RolloutController.Lifecycle.Reconcile.{IsSurging, reconcile_restart-SurgeMoves}
use k8s_drain_surge.Sharing.Runs.{surge, Surroundings, effects, SharedRun, SharedRun-IsShared}

-- The stored object is where a move of the restart-surge from `ro` leads.
abbrev pub SurgeMoved : Rollout → Stored → Type 0
SurgeMoved ro after =
    SurgeFollows (drain_in_progress ro) (is_managed after.annotations) (restart_state_of ro)
      (get_replicas (rollout ro))
      (drain_state (get after.annotations annotation_restart_surge_state))
      (replicas_or_one after.replicas)

merged-SurgeMoved :
    (mp : MergePatch) (ro : Rollout) (ref : ObjectRef) (n : Option ℤ) (p : GoMap (Option String))
    (a : GoMap String)
    → SurgeMoves ro (workload_patch ref n p)
    → SurgeMoved ro (record { replicas = n; annotations = mp.merge p a })
merged-SurgeMoved mp ro ref n p a (same, covers, f) =
    rw
      (
        get-merge mp p a annotation_hpa_name (covers _ refl),
        get-merge mp p a annotation_restart_surge_state (covers _ refl),
      )
      f

SharedRun-IsSurging :
    (mp : MergePatch) (config : Config) (ro : Rollout) → SharedRun mp config ro → IsSurging ro
SharedRun-IsSurging mp config ro run =
    let shared = SharedRun-IsShared mp config ro run in
    record { known = shared.surge_known; original = shared.surging }

-- Take a copy of the Rollout that a run of both reconcilers has had at any time. Whatever the server
-- holds by now and whatever the cluster answers, reconcileWorkload of the rollout reconciler on that
-- copy leaves the server as it is, or moves it as the abstract machine may move a restart-surge from
-- the state and the replicas of the copy: while the copy records a drain, to its end only.
pub reconcile_restart-refines :
    (mp : MergePatch) (config : Config) (around : Surroundings) (cached : Rollout) (st : Stored)
    → SharedRun mp config cached
    → let after = stored mp (object_ref (rollout cached)) st (effects config around surge cached) in
      (after ≡ st) ⊎ SurgeMoved cached after
reconcile_restart-refines mp config around cached st run =
    stored-either (SurgeMoves cached) (SurgeMoved cached) mp (merged-SurgeMoved mp cached)
      (object_ref (rollout cached)) st _
      ((reconcile_restart-SurgeMoves
          (record { client = around.client; config = config; now = around.now }) cached
          (SharedRun-IsSurging mp config cached run)).at
        (record { calls = around.calls; history = [] }) tt)
