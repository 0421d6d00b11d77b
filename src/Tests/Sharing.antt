-- ===== src/Tests/Sharing.antt =====
-- Witness for a run of both reconcilers, on a Rollout that is drained from node n1 and then looked at
-- by the rollout reconciler.
use k8s_drain_surge.Base.{◌≡◌, ◌⊎◌, refl, none}
use k8s_drain_surge.Config.{default_config}
use k8s_drain_surge.State.{DrainState, drain_state}
use k8s_drain_surge.Kube.{Rollout}
use k8s_drain_surge.Workload.{rollout, annotations, object_ref}
use k8s_drain_surge.Workload.Patching.{stored}
use k8s_drain_surge.NodeController.Reconcile.{state_of}
use k8s_drain_surge.NodeController.Reachable.{view}
use k8s_drain_surge.RolloutController.Reconcile.{restart_state_of}
use k8s_drain_surge.Sharing.{IsShared}
use k8s_drain_surge.Sharing.Runs.{
  Act, drain, surge, Surroundings, effects, SharedRun, fresh, acted, SharedRun-IsShared,
}
use k8s_drain_surge.Sharing.Refinement.{SurgeMoved, reconcile_restart-refines}
use k8s_drain_surge.Tests.{cluster, opted_in, web_rollout, merge_patch}
use k8s_drain_surge.Tests.Drains.{n1_named}

abbrev pub here : Surroundings
here = record { client = cluster; now = none; calls = 0 }

-- The Rollout after an action on what the server holds.
abbrev after : Act → Rollout → Rollout
after act ro =
    web_rollout
      (stored merge_patch (object_ref (rollout ro)) (view (rollout ro))
        (effects default_config here act ro)).annotations

abbrev idle : Rollout
idle = web_rollout opted_in

abbrev drained : Rollout
drained = after (drain "n1") idle

no_drain : state_of (rollout idle) ≡ DrainState.none
unfolding drain_state
no_drain = refl

no_surge : restart_state_of idle ≡ DrainState.none
unfolding drain_state
no_surge = refl

starts : SharedRun merge_patch default_config idle
starts = fresh idle no_drain no_surge refl

drains : SharedRun merge_patch default_config drained
drains = acted (drain "n1") here idle idle drained starts starts n1_named (λ k owned. refl)

SharedRun-IsShared_example : IsShared (annotations (rollout (after surge drained)))
SharedRun-IsShared_example =
    SharedRun-IsShared merge_patch default_config (after surge drained)
      (acted surge here drained drained (after surge drained) drains drains tt (λ k owned. refl))

reconcile_restart-refines_example :
    let server = view (rollout drained) in
    let later =
      stored merge_patch
        (object_ref (rollout drained))
        server
        (effects default_config here surge drained) in
    (later ≡ server) ⊎ SurgeMoved drained later
reconcile_restart-refines_example =
    reconcile_restart-refines merge_patch default_config here drained (view (rollout drained))
      drains
