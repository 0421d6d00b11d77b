-- ===== src/NodeController/Indexing.antt =====
-- What the index of workloads by drain node finds.
use k8s_drain_surge.Base.{
  ℕ, suc, String, ◌≡◌, ◌≢◌, ◌↔◌, refl, Bool, true, List, [], ◌∷◌, arith, eq_iff, Bool-cases, inl,
  inr, if◌then◌else◌,
}
use k8s_drain_surge.Base.Maps.{GoMap, get}
use k8s_drain_surge.Errors.{ok}
use k8s_drain_surge.State.{annotation_drain_node, mem_key}
use k8s_drain_surge.Kube.{Api, Rollout, Deployment}
use k8s_drain_surge.Session.{Session, ◌>>=◌}
use k8s_drain_surge.Workload.{Workload, rollout, deployment, annotations}
use k8s_drain_surge.Base.Lists.{All}
use k8s_drain_surge.NodeController.Abort.{
  NodeReconciler, key_of, put_rollouts, put_deployments, find_workloads_with_drain_node,
}
use k8s_drain_surge.NodeController.Orphans.{index_by_drain_node_annotation}
use k8s_drain_surge.NodeController.Putting.{
  IsFound, put_rollouts-All, put_deployments-All, put_deployments-keeps, put_rollouts-IsFound,
  put_deployments-IsFound,
}

-- The elements that pass a test, in their order.
abbrev pub selected {ℓ} : {A : Type ℓ} → (A → Bool) → List A → List A
selected f [] = []
selected f (x ∷ xs) = if f x then x ∷ selected f xs else selected f xs

-- The index function gives these annotations the key `name`.
abbrev pub indexed : String → GoMap String → Bool
indexed name m = mem_key (index_by_drain_node_annotation m) name

-- The cache answers a lookup in its index with the objects that the index function gives the key, of
-- the Rollouts and Deployments that it holds.
pub record IndexServes (c : Api) (ros : List Rollout) (ds : List Deployment) : Type 0 where
  pub serves_rollouts :
      (k : ℕ) (name : String)
      → c.list_draining_rollouts k name
        ≡ ok (selected (λ ro. indexed name (annotations (rollout ro))) ros)
  pub serves_deployments :
      (k : ℕ) (name : String)
      → c.list_draining_deployments k name
        ≡ ok (selected (λ d. indexed name (annotations (deployment d))) ds)

-- The workload is being drained from this node.
abbrev pub IsDrainedFrom : String → Workload → Type 0
IsDrainedFrom name wl = get (annotations wl) annotation_drain_node ≡ name

indexed_iff :
    (name : String) (m : GoMap String)
    → name ≢ ""
    → (indexed name m ≡ true) ↔ (get m annotation_drain_node ≡ name)
unfolding index_by_drain_node_annotation
indexed_iff name m named = ground (
  arith,
  named,
  eq_iff (get m annotation_drain_node) "",
  eq_iff (get m annotation_drain_node) name,
)

module _ {ℓ} {A : Type ℓ} (f : A → Bool) where
  selected-All : (xs : List A) → All (λ x. f x ≡ true) (selected f xs)
  selected-All [] = tt
  selected-All (x ∷ xs) = elim (Bool-cases (f x)) [
    | inl yes_x ↦ rw yes_x (yes_x, selected-All xs)
    | inr no_x ↦ rw no_x (selected-All xs)
  ]

  -- What holds of the selected elements holds of all that pass the test.
  unselected :
      (Q : A → Type 0) (xs : List A) → All Q (selected f xs) → All (λ x. f x ≡ true → Q x) xs
  unselected Q [] h = tt
  unselected Q (x ∷ xs) h = elim (Bool-cases (f x)) [
    | inl yes_x ↦ let h' = rw yes_x at h in ((λ e. h'.0), unselected Q xs h'.1)
    | inr no_x ↦ ((λ e. cc), unselected Q xs (rw no_x at h))
  ]

All-map {ℓ} :
    {A : Type ℓ} {P Q : A → Type 0} (xs : List A) → ((x : A) → P x → Q x) → All P xs → All Q xs
All-map [] f h = tt
All-map (x ∷ xs) f h = (f x h.0, All-map xs f h.1)

module _ (name : String) (ros : List Rollout) (ds : List Deployment) (named : name ≢ "") where
  abbrev chosen_rollouts : List Rollout
  chosen_rollouts = selected (λ ro. indexed name (annotations (rollout ro))) ros

  abbrev chosen_deployments : List Deployment
  chosen_deployments = selected (λ d. indexed name (annotations (deployment d))) ds

  abbrev found : List (String × Workload)
  found = put_deployments chosen_deployments (put_rollouts chosen_rollouts [])

  found-All : All (λ p. IsDrainedFrom name p.1) found
  found-All =
      put_deployments-All (IsDrainedFrom name) chosen_deployments _
        (All-map chosen_deployments (λ d e. (indexed_iff name _ named).0 e) (selected-All _ ds))
        (put_rollouts-All (IsDrainedFrom name) chosen_rollouts []
          (All-map chosen_rollouts (λ ro e. (indexed_iff name _ named).0 e) (selected-All _ ros))
          tt)

  rollouts-IsFound : All (λ ro. IsDrainedFrom name (rollout ro) → IsFound found (rollout ro)) ros
  rollouts-IsFound =
      All-map ros (λ ro chosen e. chosen ((indexed_iff name _ named).1 e))
        (unselected _ (λ ro. IsFound found (rollout ro)) ros
          (All-map chosen_rollouts
            (λ ro h. put_deployments-keeps chosen_deployments _ (key_of (rollout ro)) h)
            (put_rollouts-IsFound chosen_rollouts [])))

  deployments-IsFound :
      All (λ d. IsDrainedFrom name (deployment d) → IsFound found (deployment d)) ds
  deployments-IsFound =
      All-map ds (λ d chosen e. chosen ((indexed_iff name _ named).1 e))
        (unselected _ (λ d. IsFound found (deployment d)) ds
          (put_deployments-IsFound chosen_deployments _))

-- Where the cache keeps the index that SetupWithManager registers, a lookup for a node finds
-- workloads that are drained from it only, and the key of each Rollout and Deployment in the cache
-- that is.
pub find_workloads-IsFound :
    (r : NodeReconciler) (ros : List Rollout) (ds : List Deployment) (name : String) (s : Session)
    → IndexServes r.client ros ds
    → name ≢ ""
    → (ws : List (String × Workload)) × ((find_workloads_with_drain_node r name s).0 ≡ ok ws)
      × All (λ p. IsDrainedFrom name p.1) ws
      × All (λ ro. IsDrainedFrom name (rollout ro) → IsFound ws (rollout ro)) ros
      × All (λ d. IsDrainedFrom name (deployment d) → IsFound ws (deployment d)) ds
unfolding find_workloads_with_drain_node ◌>>=◌
find_workloads-IsFound r ros ds name s index named = (
  found name ros ds named,
  rw (index.serves_rollouts s.calls name, index.serves_deployments (suc s.calls) name) refl,
  found-All name ros ds named,
  rollouts-IsFound name ros ds named,
  deployments-IsFound name ros ds named,
)

-- The lookup makes two calls.
pub lookup-session :
    (r : NodeReconciler) (ros : List Rollout) (ds : List Deployment) (name : String) (s : Session)
    → IndexServes r.client ros ds
    → (find_workloads_with_drain_node r name s).1 ≡ record s { calls = suc (suc s.calls) }
unfolding find_workloads_with_drain_node ◌>>=◌
lookup-session r ros ds name s index =
    rw (index.serves_rollouts s.calls name, index.serves_deployments (suc s.calls) name) refl
