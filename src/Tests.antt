-- ===== src/Tests.antt =====
-- Objects and a cluster to run the controllers on.
mod Plain
mod Drains
mod Restarts
mod Watching
mod Lifecycle
mod Progress
mod Starting
mod Sharing
mod Surging
mod Overrun
mod Owning
mod Overdue
mod Scanning
mod Managed
mod Collecting
use k8s_drain_surge.Base.{
  ℕ, String, ◌≡◌, refl, Bool, true, false, Option, none, some, List, [], ◌∷◌, ◌==◌, if◌then◌else◌,
}
use k8s_drain_surge.Base.Int.{ℤ, pos}
use k8s_drain_surge.Base.Maps.{GoMap, empty, insert}
use k8s_drain_surge.Errors.{Result, ok, err, not_found, api}
use k8s_drain_surge.Strconv.{atoi, itoa}
use k8s_drain_surge.Config.{Config, default_config}
use k8s_drain_surge.State.{
  annotation_enabled, annotation_drain_state, annotation_drain_node, annotation_drain_start,
  annotation_original_replicas, annotation_restart_surge_state, annotation_restart_surge_start,
}
use k8s_drain_surge.Kube.{
  Api, Node, Taint, Pod, Condition, Hpa, ObjectMeta, Deployment, Rollout, Requirement,
  LabelSelector, matching,
}
use k8s_drain_surge.Session.{Session}
use k8s_drain_surge.Workload.{Workload, rollout, deployment}
use k8s_drain_surge.Workload.Patching.{MergePatch, Stored}
use k8s_drain_surge.NodeController.Abort.{NodeReconciler}
use k8s_drain_surge.RolloutController.Abort.{RolloutReconciler}

abbrev pub app : Requirement
app = record { key = "app"; operator = "In"; values = "web" ∷ [] }

abbrev pub app_selector : LabelSelector
app_selector = record { match_labels = []; match_expressions = app ∷ [] }

abbrev pub pod_on : String → Pod
pod_on node_name = record {
  name = "web-1";
  namespace = "shop";
  node_name = node_name;
  phase = "Running";
  conditions = record { cond_type = "Ready"; status = "True"; reason = "" } ∷ [];
  deletion_timestamp = none;
  creation_timestamp = pos 1000;
  owner_references = [];
}

abbrev pub two_pods : List Pod
two_pods = pod_on "n2" ∷ pod_on "n3" ∷ []

abbrev pub tainted_node : Node
tainted_node = record {
  name = "n1";
  taints = record { key = "karpenter.sh/disrupted"; effect = "NoSchedule" } ∷ [];
}

-- A cluster with two ready pods, one budget and no autoscaler, 700 seconds after the epoch; times
-- are printed as numbers.
abbrev pub cluster : Api
cluster = record {
  get_node = λ n name. ok tainted_node;
  get_replica_set = λ n namespace name. err not_found;
  get_rollout = λ n namespace name. err not_found;
  get_deployment = λ n namespace name. err not_found;
  list_nodes = λ n. ok (tainted_node ∷ []);
  list_node_pods = λ n name. ok [];
  list_pods = λ n namespace sel. ok two_pods;
  list_pdbs = λ n namespace. ok (record { selector = some app_selector } ∷ []);
  list_hpas = λ n namespace. ok [];
  list_rollouts = λ n. ok [];
  list_deployments = λ n. ok [];
  list_draining_rollouts = λ n name. ok [];
  list_draining_deployments = λ n name. ok [];
  patch = λ n w. ok tt;
  now = λ n. pos 700000000000;
  format_rfc3339 = itoa;
  parse_rfc3339 = atoi;
  label_selector_as_selector = λ ls. some (matching ls.match_expressions);
  requirement_string = λ r. r.key;
}

abbrev pub session : Session
session = record { calls = 0; history = [] }

abbrev pub node_reconciler : NodeReconciler
node_reconciler = record { client = cluster; config = default_config }

abbrev pub rollout_reconciler : RolloutReconciler
rollout_reconciler = record { client = cluster; config = default_config; now = none }

abbrev pub named : GoMap String → ObjectMeta
named m = record { name = "web"; namespace = "shop"; annotations = m; generation = pos 1 }

abbrev pub opted_in : GoMap String
opted_in = insert annotation_enabled "true" empty

-- A drain of the workload for node n1 that began at the epoch, in this state.
abbrev pub draining_in : String → GoMap String
draining_in state = insert annotation_drain_start "0" (
    insert annotation_drain_node "n1"
      (insert annotation_original_replicas "1" (insert annotation_drain_state state opted_in)))

-- The same workload in a restart-surge too.
abbrev pub surging_in : String → GoMap String
surging_in state =
    insert annotation_restart_surge_start "0"
      (insert annotation_restart_surge_state "scaled-up" (draining_in state))

abbrev pub web : GoMap String → Deployment
web m = record {
  object_meta = named m;
  replicas = some (pos 1);
  selector = some app_selector;
  strategy_type = "RollingUpdate";
  conditions = [];
  observed_generation = pos 1;
}

abbrev pub web_rollout : GoMap String → Rollout
web_rollout m = record {
  object_meta = named m;
  replicas = some (pos 1);
  restart_at = some (pos 5);
  selector = some app_selector;
  phase = "Healthy";
  message = "";
  restarted_at = some (pos 5);
}

-- A merge patch, applied as RFC 7386 has it.
abbrev pub merge_patch : MergePatch
merge_patch = record {
  merge = λ p a k. elim (p k) [ none ↦ a k | some v ↦ v ];
  merge_at = λ p a k. refl;
}

abbrev pub server : Stored
server = record { replicas = some (pos 2); annotations = draining_in "ready" }
