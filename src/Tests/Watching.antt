-- ===== src/Tests/Watching.antt =====
-- Witnesses for the events, the end of a drain, and the order of the patches of a surge.
use k8s_drain_surge.Base.{String, List, ◌≡◌, refl, false, some, [], ◌∷◌, arith, eq_iff}
use k8s_drain_surge.Base.Int.{pos}
use k8s_drain_surge.Errors.{ok}
use k8s_drain_surge.Config.{default_config}
use k8s_drain_surge.Kube.{matching, Node, Hpa}
use k8s_drain_surge.Workload.{Workload, rollout, deployment}
use k8s_drain_surge.Base.Lists.{Any, All}
use k8s_drain_surge.NodeController.Taints.{IsConfigured}
use k8s_drain_surge.NodeController.Abort.{NodeReconciler, finished}
use k8s_drain_surge.NodeController.Every.{aborted_in_turn, AllAborted}
use k8s_drain_surge.NodeController.Putting.{IsFound}
use k8s_drain_surge.NodeController.Indexing.{IsDrainedFrom}
use k8s_drain_surge.Tests.Starting.{indexing, held_rollouts, held_deployments}
use k8s_drain_surge.Tests.Drains.{n1_named}
use k8s_drain_surge.NodeController.Handlers.{surge_hpa}
use k8s_drain_surge.NodeController.Reconcile.{reconcile}
use k8s_drain_surge.NodeController.Ending.{reconcile-IsReleased}
use k8s_drain_surge.NodeController.Ordering.{HpaGuarded, recording, surge_hpa-HpaGuarded}
use k8s_drain_surge.RolloutController.Reconcile.{reconcile_restart}
use k8s_drain_surge.RolloutController.Watch.{
  RolloutEvent, updated, rollout_relevant_predicate, rollout_relevant,
}
use k8s_drain_surge.RolloutController.Filtering.{reconcile_restart-irrelevant}
use k8s_drain_surge.Base.{◌↔◌, true}
use k8s_drain_surge.Scaler.{find_matching_pdb}
use k8s_drain_surge.Scaler.Budgets.{HasBudget, find_matching_pdb_iff}
use k8s_drain_surge.Tests.{
  app, surging_in, cluster, session, node_reconciler, rollout_reconciler, opted_in, web,
  web_rollout,
}

abbrev free_node : Node
free_node = record { name = "n1"; taints = record { key = "other"; effect = "NoSchedule" } ∷ [] }

-- The cluster after the taint is gone, with one drain left in the index.
abbrev released : NodeReconciler
released = record {
  client = record indexing { get_node = λ n name. ok free_node };
  config = default_config;
}

other_taint : ¬ Any (IsConfigured default_config.drain_taints) free_node.taints
other_taint found = ground (
  arith,
  found,
  eq_iff "other" "karpenter.sh/disrupted",
  eq_iff "other" "ToBeDeletedByClusterAutoscaler",
  eq_iff "other" "node.kubernetes.io/unschedulable",
)

reconcile-IsReleased_example :
    let s' = record session { calls = 3 } in
    let run = reconcile released (λ ws. ws) "n1" session in
    (ws : List (String × Workload)) × All (λ p. IsDrainedFrom "n1" p.1) ws
    × All (λ ro. IsDrainedFrom "n1" (rollout ro) → IsFound ws (rollout ro)) held_rollouts
    × All (λ d. IsDrainedFrom "n1" (deployment d) → IsFound ws (deployment d)) held_deployments
    × (run.1 ≡ aborted_in_turn released ws s')
    × ((run.0 ≡ ok finished) ↔ AllAborted released ws s')
reconcile-IsReleased_example =
    reconcile-IsReleased released (λ ws. ws) held_rollouts held_deployments "n1" session
      (refl, other_taint)
      (record { serves_rollouts = λ k name. refl; serves_deployments = λ k name. refl }) n1_named

abbrev web_hpa : Hpa
web_hpa = record {
  name = "web-hpa";
  target_name = "web";
  target_kind = "Deployment";
  max_replicas = pos 3;
  min_replicas = some (pos 1);
}

surge_hpa-HpaGuarded_example :
    HpaGuarded
      (recording (deployment (web opted_in)) web_hpa)
      (surge_hpa node_reconciler (deployment (web opted_in)) (pos 1) web_hpa session).1.history
surge_hpa-HpaGuarded_example =
    surge_hpa-HpaGuarded node_reconciler (deployment (web opted_in)) (pos 1) web_hpa session tt

-- An update that ends a restart-surge.
abbrev surge_ended : RolloutEvent
surge_ended = updated (web_rollout (surging_in "done")) (web_rollout opted_in)

irrelevant : rollout_relevant_predicate default_config.enabled_annotation surge_ended ≡ false
unfolding rollout_relevant_predicate rollout_relevant
irrelevant = refl

reconcile_restart-irrelevant_example :
    (reconcile_restart rollout_reconciler (web_rollout opted_in) session).1.history ≡ []
reconcile_restart-irrelevant_example =
    reconcile_restart-irrelevant rollout_reconciler surge_ended session irrelevant

find_matching_pdb_iff_example :
    ((find_matching_pdb cluster "shop" (matching (app ∷ [])) session).0 ≡ ok true)
    ↔ HasBudget cluster (cluster.list_pdbs 0 "shop") (app ∷ [])
find_matching_pdb_iff_example = find_matching_pdb_iff cluster "shop" (matching (app ∷ [])) session
