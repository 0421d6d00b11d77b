-- ===== src/Kube.antt =====
-- The API objects that the controller reads and writes, with the fields that it uses, and the
-- client, clock and libraries around it. Nothing here is code of the repository: the objects are
-- those of k8s.io/api and argo-rollouts, and `Api` is a parameter of everything that uses it.
use k8s_drain_surge.Base.{ℕ, String, Bool, true, false, Option, none, some, List, []}
use k8s_drain_surge.Base.Int.{ℤ, eqb_ℤ}
use k8s_drain_surge.Base.Maps.{GoMap}
use k8s_drain_surge.Errors.{Result}

-- time.Time, in nanoseconds since the epoch.
abbrev pub Time : Type 0
Time = ℤ

-- (*metav1.Time).Equal: two nil pointers are equal, and a nil and a time are not.
abbrev pub time_equal : Option Time → Option Time → Bool
time_equal none none = true
time_equal (some a) (some b) = eqb_ℤ a b
time_equal _ _ = false

pub record Requirement : Type 0 where
  pub key : String
  pub operator : String
  pub values : List String

pub record LabelSelector : Type 0 where
  pub match_labels : List (String × String)
  pub match_expressions : List Requirement

-- labels.Selector: a conjunction of requirements, or labels.Nothing().
pub data Selector : Type 0 where
  matching : List Requirement → Selector
  nothing : Selector

-- reqs, _ := selector.Requirements()
abbrev pub requirements : Selector → List Requirement
requirements (matching rs) = rs
requirements nothing = []

pub record OwnerReference : Type 0 where
  pub kind : String
  pub api_version : String
  pub name : String

pub record Condition : Type 0 where
  pub cond_type : String
  pub status : String
  pub reason : String

pub record Pod : Type 0 where
  pub name : String
  pub namespace : String
  pub node_name : String
  pub phase : String
  pub conditions : List Condition
  pub deletion_timestamp : Option Time
  pub creation_timestamp : Time
  pub owner_references : List OwnerReference

pub record ReplicaSet : Type 0 where
  pub owner_references : List OwnerReference

pub record Taint : Type 0 where
  pub key : String
  pub effect : String

pub record Node : Type 0 where
  pub name : String
  pub taints : List Taint

pub record Pdb : Type 0 where
  pub selector : Option LabelSelector

pub record Hpa : Type 0 where
  pub name : String
  pub target_name : String
  pub target_kind : String
  pub max_replicas : ℤ
  pub min_replicas : Option ℤ

pub record ObjectMeta : Type 0 where
  pub name : String
  pub namespace : String
  pub annotations : GoMap String
  pub generation : ℤ

pub record Rollout : Type 0 where
  pub object_meta : ObjectMeta
  pub replicas : Option ℤ
  pub restart_at : Option Time
  pub selector : Option LabelSelector
  pub phase : String
  pub message : String
  pub restarted_at : Option Time

pub record Deployment : Type 0 where
  pub object_meta : ObjectMeta
  pub replicas : Option ℤ
  pub selector : Option LabelSelector
  pub strategy_type : String
  pub conditions : List Condition
  pub observed_generation : ℤ

-- What names an object in the cluster.
pub record ObjectRef : Type 0 where
  pub kind : String
  pub namespace : String
  pub name : String

-- A merge patch of a workload: spec.replicas, where `none` is null, and the annotations, where a
-- key that maps to `some none` is null. And the patch of an HPA's spec.minReplicas.
pub data Write : Type 0 where
  workload_patch : ObjectRef → Option ℤ → GoMap (Option String) → Write
  hpa_patch : String → String → ℤ → Write

-- The answers of the API server (through client and cache), of the clock, and of the libraries.
-- What a call answers depends on its position among the calls of the run, so a value of `Api`
-- stands for one behaviour of the cluster, any failures and interleaved changes included.
pub record Api : Type 0 where
  pub get_node : ℕ → String → Result Node
  pub get_replica_set : ℕ → String → String → Result ReplicaSet
  pub get_rollout : ℕ → String → String → Result Rollout
  pub get_deployment : ℕ → String → String → Result Deployment
  pub list_nodes : ℕ → Result (List Node)
  pub list_node_pods : ℕ → String → Result (List Pod)
  pub list_pods : ℕ → String → Selector → Result (List Pod)
  pub list_pdbs : ℕ → String → Result (List Pdb)
  pub list_hpas : ℕ → String → Result (List Hpa)
  pub list_rollouts : ℕ → Result (List Rollout)
  pub list_deployments : ℕ → Result (List Deployment)
  pub list_draining_rollouts : ℕ → String → Result (List Rollout)
  pub list_draining_deployments : ℕ → String → Result (List Deployment)
  pub patch : ℕ → Write → Result (Unit {0})
  pub now : ℕ → Time
  pub format_rfc3339 : Time → String
  pub parse_rfc3339 : String → Option Time
  pub label_selector_as_selector : LabelSelector → Option Selector
  pub requirement_string : Requirement → String
