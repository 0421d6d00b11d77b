-- ===== src/Scaler.antt =====
-- internal/controller/scaler.go: what surrounds a workload (its owner chain, its disruption budget,
-- its autoscaler, its pods).
pub mod Matching
pub mod Budgets
pub mod Owners
use k8s_drain_surge.Base.{
  ℕ, String, Bool, true, false, ◌&&◌, ◌||◌, not, Option, none, some, List, [], ◌∷◌, ◌==◌,
  if◌then◌else◌,
}
use k8s_drain_surge.Base.Int.{ℤ, pos, leb_ℤ}
use k8s_drain_surge.Kube.{
  Api, Pod, ReplicaSet, Pdb, Hpa, Condition, OwnerReference, Requirement, Selector, LabelSelector,
  requirements, hpa_patch,
}
use k8s_drain_surge.Session.{Exec, pure, ask, within, send, ◌>>=◌}
use k8s_drain_surge.Workload.{Workload, rollout, deployment}

-- The name of the first owner that is a ReplicaSet, or "".
unfoldable pub replica_set_owner : List OwnerReference → String
replica_set_owner [] = ""
replica_set_owner (ref ∷ refs) =
    if ref.kind == "ReplicaSet" && ref.api_version == "apps/v1"
    then ref.name
    else replica_set_owner refs

module _ (c : Api) where
  -- The loop over the owners of the ReplicaSet: the first supported one decides.
  unfoldable pub resolve_owner : String → List OwnerReference → Exec (Option Workload)
  resolve_owner namespace [] = pure none
  resolve_owner namespace (ref ∷ refs) =
      let rest = resolve_owner namespace refs in
      if ref.kind == "Rollout" && ref.api_version == "argoproj.io/v1alpha1"
      then (do
        ro ← within "get Rollout" (ask (λ n. c.get_rollout n namespace ref.name))
        pure (some (rollout ro)))
      else if ref.kind == "Deployment" && ref.api_version == "apps/v1"
      then (do
        d ← within "get Deployment" (ask (λ n. c.get_deployment n namespace ref.name))
        pure (some (deployment d)))
      else rest

  unfoldable pub resolve_workload_from_pod : Pod → Exec (Option Workload)
  resolve_workload_from_pod pod =
      let rs_name = replica_set_owner pod.owner_references in
      if rs_name == "" then pure none else do
        rs ← within "get ReplicaSet" (ask (λ n. c.get_replica_set n pod.namespace rs_name))
        resolve_owner pod.namespace rs.owner_references

  -- The inner loop of requirementsMatch.
  unfoldable pub requirement_found : Requirement → List Requirement → Bool
  requirement_found pr [] = false
  requirement_found pr (wr ∷ wrs) =
      c.requirement_string pr == c.requirement_string wr || requirement_found pr wrs

  -- The outer loop of requirementsMatch.
  unfoldable pub requirements_found : List Requirement → List Requirement → Bool
  requirements_found [] wrs = true
  requirements_found (pr ∷ prs) wrs = requirement_found pr wrs && requirements_found prs wrs

  unfoldable pub requirements_match : List Requirement → List Requirement → Bool
  requirements_match [] workload_reqs = false
  requirements_match (pr ∷ prs) workload_reqs = requirements_found (pr ∷ prs) workload_reqs

  -- One PDB of the loop: a missing or invalid selector covers nothing.
  abbrev selector_covers : Option Selector → List Requirement → Bool
  selector_covers none workload_reqs = false
  selector_covers (some sel) workload_reqs = requirements_match (requirements sel) workload_reqs

  unfoldable pub pdb_covers : Pdb → List Requirement → Bool
  pdb_covers pdb workload_reqs = elim pdb.selector [
    | none ↦ false
    | some ls ↦ selector_covers (c.label_selector_as_selector ls) workload_reqs
  ]

  unfoldable pub any_pdb_covers : List Pdb → List Requirement → Bool
  any_pdb_covers [] workload_reqs = false
  any_pdb_covers (pdb ∷ pdbs) workload_reqs =
      pdb_covers pdb workload_reqs || any_pdb_covers pdbs workload_reqs

  unfoldable pub find_matching_pdb : String → Selector → Exec Bool
  find_matching_pdb namespace pod_selector = do
    pdbs ← within "list PDBs" (ask (λ n. c.list_pdbs n namespace))
    pure (any_pdb_covers pdbs (requirements pod_selector))

-- The loop of FindMatchingHPA.
unfoldable pub first_hpa : String → String → List Hpa → Option Hpa
first_hpa name kind [] = none
first_hpa name kind (hpa ∷ hpas) =
    if hpa.target_name == name && hpa.target_kind == kind
    then some hpa
    else first_hpa name kind hpas

unfoldable pub find_matching_hpa : Api → String → String → String → Exec (Option Hpa)
find_matching_hpa c namespace workload_name workload_kind = do
  hpas ← within "list HPAs" (ask (λ n. c.list_hpas n namespace))
  pure (first_hpa workload_name workload_kind hpas)

unfoldable pub patch_hpa_min_replicas : Api → String → String → ℤ → Exec (Unit {0})
patch_hpa_min_replicas c namespace hpa_name min_replicas =
    send c (hpa_patch namespace hpa_name min_replicas)

abbrev pub hpa_min_replicas_or_default : Hpa → ℤ
hpa_min_replicas_or_default hpa = elim hpa.min_replicas [ none ↦ pos 1 | some n ↦ n ]

abbrev pub is_hpa_at_min_replicas : Hpa → ℤ → Bool
is_hpa_at_min_replicas hpa target = elim hpa.min_replicas [ none ↦ false | some n ↦ leb_ℤ target n ]

unfoldable pub is_pod_ready : List Condition → Bool
is_pod_ready [] = false
is_pod_ready (cond ∷ conds) =
    (cond.cond_type == "Ready" && cond.status == "True") || is_pod_ready conds

abbrev pub is_pod_terminating : Pod → Bool
is_pod_terminating pod = elim pod.deletion_timestamp [ none ↦ false | some _ ↦ true ]

abbrev pub is_finished : Pod → Bool
is_finished pod = pod.phase == "Succeeded" || pod.phase == "Failed"

-- The loop of FindReadyPodOnOtherNode.
unfoldable pub ready_elsewhere : String → List Pod → Bool
ready_elsewhere drain_node [] = false
ready_elsewhere drain_node (pod ∷ pods) =
    (not (pod.node_name == drain_node)
      && is_pod_ready pod.conditions
      && not (is_pod_terminating pod))
    || ready_elsewhere drain_node pods

-- The loop of FindPodOnNode.
unfoldable pub on_node : String → List Pod → Bool
on_node node_name [] = false
on_node node_name (pod ∷ pods) =
    (pod.node_name == node_name && not (is_pod_terminating pod) && not (is_finished pod))
    || on_node node_name pods

module _ (c : Api) where
  abbrev pub list_matching_pods : String → Selector → Exec (List Pod)
  list_matching_pods namespace sel = within "list pods" (ask (λ n. c.list_pods n namespace sel))

  unfoldable pub find_ready_pod_on_other_node : String → Selector → String → Exec Bool
  find_ready_pod_on_other_node namespace sel drain_node = do
    pods ← list_matching_pods namespace sel
    pure (ready_elsewhere drain_node pods)

  unfoldable pub find_pod_on_node : String → Selector → String → Exec Bool
  find_pod_on_node namespace sel node_name = do
    pods ← list_matching_pods namespace sel
    pure (on_node node_name pods)
