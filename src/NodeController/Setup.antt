-- ===== src/NodeController/Setup.antt =====
-- (*NodeReconciler).SetupWithManager: the indexes and the watches of the node reconciler.
use k8s_drain_surge.Base.{String, List, [], ◌∷◌, ◌==◌, if◌then◌else◌}
use k8s_drain_surge.State.{annotation_drain_node}
use k8s_drain_surge.Kube.{Pod}
use k8s_drain_surge.Session.{pure}
use k8s_drain_surge.Workload.{rollout, deployment, annotations}
use k8s_drain_surge.Manager.{
  Request, Watch, nodes, pods, rollouts, deployments, Registration, pod_index, rollout_index,
  deployment_index, controller,
}
use k8s_drain_surge.NodeController.Orphans.{
  index_by_drain_node_annotation, map_pod_to_node, map_workload_to_node,
}
use Prim.Native.String.{◌++◌}

abbrev pub index_pod_node_name : String
index_pod_node_name = "spec.nodeName"

abbrev pub index_workload_drain_node : String
index_workload_drain_node = "metadata.annotations." ++ annotation_drain_node

-- The function of the index of pods.
unfoldable pub index_by_node_name : Pod → List String
index_by_node_name pod = if pod.node_name == "" then [] else pod.node_name ∷ []

-- A node has no namespace.
abbrev pub node_requests : List String → List Request
node_requests [] = []
node_requests (name ∷ names) = ("", name) ∷ node_requests names

-- The builder's For, which asks for the object of the event itself, and Watches.
unfoldable pub node_watches : List Watch
node_watches =
    nodes (λ node. pure (node_requests (node.name ∷ [])))
    ∷ pods (λ pod. pure (node_requests (map_pod_to_node pod)))
    ∷ rollouts (λ ro. pure (node_requests (map_workload_to_node (rollout ro))))
    ∷ deployments (λ d. pure (node_requests (map_workload_to_node (deployment d))))
    ∷ []

-- What is registered, in this order, each with the text that its error is wrapped in, if any.
unfoldable pub node_setup_with_manager : List (String × Registration)
node_setup_with_manager =
    ("create pod node index", pod_index index_pod_node_name index_by_node_name)
    ∷ (
      "create rollout drain-node index",
      rollout_index index_workload_drain_node
          (λ ro. index_by_drain_node_annotation (annotations (rollout ro))),
    )
    ∷ (
      "create deployment drain-node index",
      deployment_index index_workload_drain_node
          (λ d. index_by_drain_node_annotation (annotations (deployment d))),
    )
    ∷ ("", controller node_watches 5)
    ∷ []
