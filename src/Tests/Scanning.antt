-- ===== src/Tests/Scanning.antt =====
-- Witnesses for the recovery scans, on a cluster that has workloads of both kinds.
use mathlib.Core.List.{map}
use k8s_drain_surge.Base.{suc, ◌≡◌, refl, none, List, [], ◌∷◌}
use k8s_drain_surge.Errors.{ok}
use k8s_drain_surge.Kube.{Api, Rollout, Deployment}
use k8s_drain_surge.Session.{Session}
use k8s_drain_surge.Workload.{rollout, deployment}
use k8s_drain_surge.NodeController.Abort.{NodeReconciler}
use k8s_drain_surge.NodeController.Orphans as NodeOrphans
use k8s_drain_surge.NodeController.Scanning.{recover_orphans-Scans}
use k8s_drain_surge.NodeController.Scanning as NodeScanning
use k8s_drain_surge.RolloutController.Abort.{RolloutReconciler}
use k8s_drain_surge.RolloutController.Watch
use k8s_drain_surge.RolloutController.Scanning.{Scans, recover_orphans-Scans_surges}
use k8s_drain_surge.Tests.{
  cluster, tainted_node, session, node_reconciler, rollout_reconciler, web, web_rollout, opted_in,
  draining_in, surging_in,
}

-- One Rollout waits for its restart, and the restart of the other is over.
abbrev restarts : List Rollout
restarts =
    record (web_rollout (surging_in "ready")) { restarted_at = none }
    ∷ web_rollout (surging_in "ready")
    ∷ []

abbrev deployments : List Deployment
deployments = web opted_in ∷ web (draining_in "ready") ∷ []

abbrev full_cluster : Api
full_cluster = record cluster {
  list_rollouts = λ n. ok restarts;
  list_deployments = λ n. ok deployments;
}

abbrev nodes_here : NodeReconciler
nodes_here = record node_reconciler { client = full_cluster }

abbrev rollouts_here : RolloutReconciler
rollouts_here = record rollout_reconciler { client = full_cluster }

recover_orphans-Scans_example :
    (between : Session) × (after : Session) × NodeScanning.Scans nodes_here
      (tainted_node ∷ [])
      (map rollout restarts)
      (record { calls = 2; history = [] })
      between
    × NodeScanning.Scans nodes_here
        (tainted_node ∷ [])
        (map deployment deployments)
        (record between { calls = suc between.calls })
        after
    × (NodeOrphans.recover_orphans nodes_here session ≡ (ok tt, after))
recover_orphans-Scans_example =
    recover_orphans-Scans nodes_here session (tainted_node ∷ []) restarts deployments (λ k. refl)
      (λ k. refl) (λ k. refl)

recover_orphans-Scans_surges_example :
    (after : Session) × Scans rollouts_here restarts (record { calls = 1; history = [] }) after
    × (Watch.recover_orphans rollouts_here session ≡ (ok tt, after))
recover_orphans-Scans_surges_example =
    recover_orphans-Scans_surges rollouts_here session restarts (λ k. refl)
