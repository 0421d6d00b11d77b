-- ===== src/Scaler/Matching.antt =====
-- What the loops over budgets, autoscalers and pods decide.
use k8s_drain_surge.Base.{String, ◌≡◌, ◌≢◌, ◌↔◌, refl, true, false, List, [], ◌∷◌, eq_iff, arith}
use k8s_drain_surge.Base.Lists.{Any, All}
use k8s_drain_surge.Kube.{Api, Pod, Requirement}
use k8s_drain_surge.Scaler.{
  requirement_found, requirements_found, requirements_match, is_pod_ready, is_pod_terminating,
  ready_elsewhere, on_node,
}

module _ (c : Api) where
  -- A requirement is found if one of the workload's prints the same.
  abbrev pub SamePrint : Requirement → Requirement → Type 0
  SamePrint pr wr = c.requirement_string pr ≡ c.requirement_string wr

  requirement_found_iff :
      (pr : Requirement) (wrs : List Requirement)
      → (requirement_found c pr wrs ≡ true) ↔ Any (SamePrint pr) wrs
  unfolding requirement_found
  requirement_found_iff pr [] = ground arith
  requirement_found_iff pr (wr ∷ wrs) = ground (
    arith,
    requirement_found_iff pr wrs,
    eq_iff (c.requirement_string pr) (c.requirement_string wr),
  )

  requirements_found_iff :
      (prs wrs : List Requirement)
      → (requirements_found c prs wrs ≡ true) ↔ All (λ pr. Any (SamePrint pr) wrs) prs
  unfolding requirements_found
  requirements_found_iff [] wrs = ground arith
  requirements_found_iff (pr ∷ prs) wrs =
      ground (arith, requirement_found_iff pr wrs, requirements_found_iff prs wrs)

  -- requirementsMatch holds exactly if the budget has a requirement and each of its requirements
  -- prints like one of the workload's.
  pub requirements_match_iff :
      (prs wrs : List Requirement)
      → (requirements_match c prs wrs ≡ true)
        ↔ ((prs ≢ []) × All (λ pr. Any (SamePrint pr) wrs) prs)
  unfolding requirements_match
  requirements_match_iff [] wrs = ((λ h. cc), (λ h. absurd (h.0 refl)))
  requirements_match_iff (pr ∷ prs) wrs = (
    (λ h. ((λ e. cc), (requirements_found_iff (pr ∷ prs) wrs).0 h)),
    (λ h. (requirements_found_iff (pr ∷ prs) wrs).1 h.1),
  )

-- A pod that can take over: ready, not terminating, on another node.
pub record IsReadyElsewhere (drain_node : String) (pod : Pod) : Type 0 where
  pub elsewhere : pod.node_name ≢ drain_node
  pub ready : is_pod_ready pod.conditions ≡ true
  pub live : is_pod_terminating pod ≡ false

-- The loop of FindReadyPodOnOtherNode finds a pod exactly if one of the pods is ready, not
-- terminating, and on another node.
pub ready_elsewhere_iff :
    (drain_node : String) (pods : List Pod)
    → (ready_elsewhere drain_node pods ≡ true) ↔ Any (IsReadyElsewhere drain_node) pods
unfolding ready_elsewhere
ready_elsewhere_iff drain_node [] = ground arith
ready_elsewhere_iff drain_node (pod ∷ pods) =
    ground (arith, ready_elsewhere_iff drain_node pods, eq_iff pod.node_name drain_node)

-- A pod that still needs its node: on it, not terminating, and neither succeeded nor failed.
pub record IsLiveOn (node_name : String) (pod : Pod) : Type 0 where
  pub here : pod.node_name ≡ node_name
  pub live : is_pod_terminating pod ≡ false
  pub unfinished : (pod.phase ≢ "Succeeded") × (pod.phase ≢ "Failed")

-- The loop of FindPodOnNode finds a pod exactly if one of the pods is on the node, not terminating,
-- and neither succeeded nor failed.
pub on_node_iff :
    (node_name : String) (pods : List Pod)
    → (on_node node_name pods ≡ true) ↔ Any (IsLiveOn node_name) pods
unfolding on_node
on_node_iff node_name [] = ground arith
on_node_iff node_name (pod ∷ pods) = ground (
  arith,
  on_node_iff node_name pods,
  eq_iff pod.node_name node_name,
  eq_iff pod.phase "Succeeded",
  eq_iff pod.phase "Failed",
)
