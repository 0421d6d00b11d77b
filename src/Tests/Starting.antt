-- ===== src/Tests/Starting.antt =====
-- Witnesses for main, the watches and the index.
use k8s_drain_surge.Base.{String, ◌≡◌, ◌↔◌, refl, List, [], ◌∷◌}
use k8s_drain_surge.Errors.{Result, ok}
use k8s_drain_surge.Config.{Config, CommandLine, set, default_config}
use k8s_drain_surge.Kube.{Api, Rollout, Deployment}
use k8s_drain_surge.Workload.{Workload, rollout, deployment, annotations}
use k8s_drain_surge.Base.Lists.{All}
use k8s_drain_surge.Manager.{Manager, Options}
use k8s_drain_surge.NodeController.Abort.{NodeReconciler, find_workloads_with_drain_node}
use k8s_drain_surge.NodeController.Putting.{IsFound}
use k8s_drain_surge.NodeController.Indexing.{
  selected, indexed, IsDrainedFrom, find_workloads-IsFound,
}
use k8s_drain_surge.Startup.{main}
use k8s_drain_surge.Startup.Exits.{Runs, main-exit_iff}
use k8s_drain_surge.Tests.{cluster, session, draining_in, opted_in, web, web_rollout}
use k8s_drain_surge.Tests.Drains.{n1_named}

abbrev manager : Options → Result Manager
manager options = ok (record { client = cluster; register = λ r. ok tt; start = ok tt })

-- A command line without flags.
abbrev no_flags : Config → CommandLine
no_flags cfg = set cfg

main-exit_iff_example :
    ((main no_flags manager).exit_code ≡ 0) ↔ Runs manager (no_flags default_config)
main-exit_iff_example = main-exit_iff no_flags manager

abbrev pub held_rollouts : List Rollout
held_rollouts = web_rollout (draining_in "ready") ∷ web_rollout opted_in ∷ []

abbrev pub held_deployments : List Deployment
held_deployments = web opted_in ∷ []

-- The cluster, with an index over these objects.
abbrev pub indexing : Api
indexing = record cluster {
  list_draining_rollouts =
      λ k name. ok (selected (λ ro. indexed name (annotations (rollout ro))) held_rollouts);
  list_draining_deployments =
      λ k name. ok (selected (λ d. indexed name (annotations (deployment d))) held_deployments);
}

abbrev indexing_reconciler : NodeReconciler
indexing_reconciler = record { client = indexing; config = default_config }

find_workloads-IsFound_example :
    (ws : List (String × Workload)) × ((find_workloads_with_drain_node indexing_reconciler "n1"
        session).0
      ≡ ok ws)
    × All (λ p. IsDrainedFrom "n1" p.1) ws
    × All (λ ro. IsDrainedFrom "n1" (rollout ro) → IsFound ws (rollout ro)) held_rollouts
    × All (λ d. IsDrainedFrom "n1" (deployment d) → IsFound ws (deployment d)) held_deployments
find_workloads-IsFound_example =
    find_workloads-IsFound indexing_reconciler held_rollouts held_deployments "n1" session
      (record { serves_rollouts = λ k name. refl; serves_deployments = λ k name. refl }) n1_named
