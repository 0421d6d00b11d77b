-- ===== src/NodeController/Ending.antt =====
-- When Reconcile gives the drains of a node up.
use k8s_drain_surge.Base.{suc, String, ◌≡◌, ◌≢◌, ◌↔◌, ◌∙◌, refl, true, none, List, arith}
use k8s_drain_surge.Errors.{Result, ok, err, is_not_found}
use k8s_drain_surge.Kube.{Node, Rollout, Deployment}
use k8s_drain_surge.Session.{Session, ◌>>=◌}
use k8s_drain_surge.Workload.{Workload, rollout, deployment}
use k8s_drain_surge.Base.Lists.{Any, All}
use k8s_drain_surge.NodeController.Abort.{
  NodeReconciler, finished, abort_workloads_for_node, abort_all, find_workloads_with_drain_node,
}
use k8s_drain_surge.NodeController.Every.{aborted_in_turn, AllAborted, abort_all-attempts}
use k8s_drain_surge.NodeController.Putting.{IsFound}
use k8s_drain_surge.NodeController.Indexing.{
  IndexServes, IsDrainedFrom, find_workloads-IsFound, lookup-session,
}
use k8s_drain_surge.NodeController.Reconcile.{reconcile, on_reply, reconcile_node}
use k8s_drain_surge.NodeController.Taints.{IsConfigured, has_drain_taint_iff}

-- The node that a request names is gone, or has none of the configured taints.
abbrev pub IsReleased : NodeReconciler → String → Result Node → Type 0
IsReleased r name (ok node) =
    (node.name ≡ name) × ¬ Any (IsConfigured r.config.drain_taints) node.taints
IsReleased r name (err e) = is_not_found e ≡ true

released-aborts :
    (r : NodeReconciler) (range_order : List (String × Workload) → List (String × Workload))
    (name : String) (s : Session) (answer : Result Node)
    → r.client.get_node s.calls name ≡ answer
    → IsReleased r name answer
    → reconcile r range_order name s
      ≡ abort_workloads_for_node r range_order name (record s { calls = suc s.calls })
unfolding reconcile on_reply reconcile_node ◌>>=◌
released-aborts r range_order name s (ok node) answered (same, free) =
    rw (answered, reconcile) (ground (arith, same, free, has_drain_taint_iff r node))
released-aborts r range_order name s (err e) answered gone =
    rw (answered, reconcile) (ground (arith, gone))

-- The answer and the session of abortWorkloadsForNode, from those of the lookup.
aborts-found :
    (r : NodeReconciler) (range_order : List (String × Workload) → List (String × Workload))
    (name : String) (s : Session) (ws : List (String × Workload))
    → (find_workloads_with_drain_node r name s).0 ≡ ok ws
    → abort_workloads_for_node r range_order name s
      ≡ abort_all r (range_order ws) none (find_workloads_with_drain_node r name s).1
unfolding abort_workloads_for_node ◌>>=◌ find_workloads_with_drain_node abort_all
aborts-found r range_order name s ws found = rw found refl

-- If the node is gone or has none of the configured taints, Reconcile looks the workloads up that are
-- drained from it, where the cache keeps the index that SetupWithManager registers, and finds such
-- workloads only, and the key of each Rollout and Deployment in the cache that is one. It aborts all
-- that it has found, in the order in which Go ranges over them, whether or not an abort fails, does
-- nothing else, and returns without an error exactly if none fails.
pub reconcile-IsReleased :
    (r : NodeReconciler) (range_order : List (String × Workload) → List (String × Workload))
    (ros : List Rollout) (ds : List Deployment) (name : String) (s : Session)
    → IsReleased r name (r.client.get_node s.calls name)
    → IndexServes r.client ros ds
    → name ≢ ""
    → let s' = record s { calls = suc (suc (suc s.calls)) } in
      (ws : List (String × Workload)) × All (λ p. IsDrainedFrom name p.1) ws
      × All (λ ro. IsDrainedFrom name (rollout ro) → IsFound ws (rollout ro)) ros
      × All (λ d. IsDrainedFrom name (deployment d) → IsFound ws (deployment d)) ds
      × ((reconcile r range_order name s).1 ≡ aborted_in_turn r (range_order ws) s')
      × (((reconcile r range_order name s).0 ≡ ok finished) ↔ AllAborted r (range_order ws) s')
reconcile-IsReleased r range_order ros ds name s is_released index named =
    let s1 = record s { calls = suc s.calls } in
    let (ws, found, only, ros_found, ds_found) =
      find_workloads-IsFound r ros ds name s1 index named in
    let run =
      released-aborts r range_order name s _ refl is_released
      ∙ aborts-found r range_order name s1 ws found in
    let (turn, done) =
      abort_all-attempts r (range_order ws) (record s { calls = suc (suc (suc s.calls)) }) in
    let after = lookup-session r ros ds name s1 index in
    (ws, only, ros_found, ds_found, rw (run, after) turn, rw (run, after) done)
