-- ===== src/NodeController/Orphans.antt =====
-- (*NodeReconciler).RecoverOrphans, the index of workloads by drain node, and the watches.
use k8s_drain_surge.Base.{String, Bool, false, ◌&&◌, ◌||◌, not, List, [], ◌∷◌, ◌==◌, if◌then◌else◌}
use k8s_drain_surge.Base.Maps.{GoMap, get}
use k8s_drain_surge.State.{annotation_drain_node}
use k8s_drain_surge.Kube.{Node, Pod, Rollout, Deployment}
use k8s_drain_surge.Session.{Exec, pure, within, attempt, ask, ◌>>=◌, ◌>>◌}
use k8s_drain_surge.Workload.{Workload, rollout, deployment, annotations}
use k8s_drain_surge.NodeController.Abort.{NodeReconciler, abort_workload}
use k8s_drain_surge.NodeController.Reconcile.{has_drain_taint}

module _ (r : NodeReconciler) where
  -- taintedNodes[name], as a list is searched for it
  unfoldable pub is_tainted : List Node → String → Bool
  is_tainted [] name = false
  is_tainted (node ∷ nodes) name =
      (has_drain_taint r node && node.name == name) || is_tainted nodes name

  abbrev pub is_orphan : List Node → Workload → Bool
  is_orphan nodes wl =
      let drain_node = get (annotations wl) annotation_drain_node in
      not (drain_node == "") && not (is_tainted nodes drain_node)

  -- One workload of the scan; an error is logged and skipped.
  unfoldable pub recover : List Node → Workload → Exec (Unit {0})
  recover nodes wl =
      if is_orphan nodes wl then (do attempt (abort_workload r wl); pure tt) else pure tt

  unfoldable pub recover_rollouts : List Node → List Rollout → Exec (Unit {0})
  recover_rollouts nodes [] = pure tt
  recover_rollouts nodes (ro ∷ ros) = recover nodes (rollout ro) >> recover_rollouts nodes ros

  unfoldable pub recover_deployments : List Node → List Deployment → Exec (Unit {0})
  recover_deployments nodes [] = pure tt
  recover_deployments nodes (d ∷ ds) = recover nodes (deployment d) >> recover_deployments nodes ds

  unfoldable pub recover_orphans : Exec (Unit {0})
  recover_orphans = do
    nodes ← within "list nodes" (ask r.client.list_nodes)
    ros ← within "list rollouts" (ask r.client.list_rollouts)
    recover_rollouts nodes ros
    ds ← within "list deployments" (ask r.client.list_deployments)
    recover_deployments nodes ds

-- indexByDrainNodeAnnotation
unfoldable pub index_by_drain_node_annotation : GoMap String → List String
index_by_drain_node_annotation m =
    let v = get m annotation_drain_node in if v == "" then [] else v ∷ []

-- mapPodToNode: the names of the nodes to reconcile
unfoldable pub map_pod_to_node : Pod → List String
map_pod_to_node pod = if pod.node_name == "" then [] else pod.node_name ∷ []

-- mapWorkloadToNode
unfoldable pub map_workload_to_node : Workload → List String
map_workload_to_node wl =
    let node_name = get (annotations wl) annotation_drain_node in
    if node_name == "" then [] else node_name ∷ []
