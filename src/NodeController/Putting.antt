-- ===== src/NodeController/Putting.antt =====
-- The map of workloads that findWorkloadsWithDrainNode fills: what stays in it, and what is found.
use text.Mathlib.TextPositions.{eq_refl}
use k8s_drain_surge.Base.{
  String, ◌≡◌, refl, true, ◌||◌, List, [], ◌∷◌, ◌==◌, arith, eq_iff, Bool-cases, inl, inr,
}
use k8s_drain_surge.Kube.{Rollout, Deployment}
use k8s_drain_surge.Workload.{Workload, rollout, deployment}
use k8s_drain_surge.Base.Lists.{All}
use k8s_drain_surge.NodeController.Abort.{key_of, put_workload, put_rollouts, put_deployments}
use k8s_drain_surge.NodeController.Reconcile.{has_key}

module _ (P : Workload → Type 0) where
  abbrev OfAll : List (String × Workload) → Type 0
  OfAll ws = All (λ p. P p.1) ws

  put_workload-All :
      (key : String) (wl : Workload) (ws : List (String × Workload))
      → P wl
      → OfAll ws
      → OfAll (put_workload key wl ws)
  unfolding put_workload
  put_workload-All key wl [] p h = (p, tt)
  put_workload-All key wl ((k, w) ∷ ws) p h = elim (Bool-cases (k == key)) [
    | inl same ↦ rw same (p, h.1)
    | inr other ↦ rw other (h.0, put_workload-All key wl ws p h.1)
  ]

  pub put_rollouts-All :
      (ros : List Rollout) (ws : List (String × Workload))
      → All (λ ro. P (rollout ro)) ros
      → OfAll ws
      → OfAll (put_rollouts ros ws)
  unfolding put_rollouts
  put_rollouts-All [] ws p h = h
  put_rollouts-All (ro ∷ ros) ws p h =
      put_rollouts-All ros _ p.1 (put_workload-All (key_of (rollout ro)) (rollout ro) ws p.0 h)

  pub put_deployments-All :
      (ds : List Deployment) (ws : List (String × Workload))
      → All (λ d. P (deployment d)) ds
      → OfAll ws
      → OfAll (put_deployments ds ws)
  unfolding put_deployments
  put_deployments-All [] ws p h = h
  put_deployments-All (d ∷ ds) ws p h =
      put_deployments-All ds _ p.1
        (put_workload-All (key_of (deployment d)) (deployment d) ws p.0 h)

-- A key once put stays.
has_key-put_workload :
    (k key : String) (wl : Workload) (ws : List (String × Workload))
    → has_key k (put_workload key wl ws) ≡ (key == k || has_key k ws)
unfolding put_workload has_key
has_key-put_workload k key wl [] = refl
has_key-put_workload k key wl ((j, w) ∷ ws) =
    ground (arith, eq_iff j key, eq_iff j k, eq_iff key k, has_key-put_workload k key wl ws)

-- The key of a workload is in the map.
abbrev pub IsFound : List (String × Workload) → Workload → Type 0
IsFound ws wl = has_key (key_of wl) ws ≡ true

pub put_rollouts-keeps :
    (ros : List Rollout) (ws : List (String × Workload)) (k : String)
    → has_key k ws ≡ true
    → has_key k (put_rollouts ros ws) ≡ true
unfolding put_rollouts
put_rollouts-keeps [] ws k h = h
put_rollouts-keeps (ro ∷ ros) ws k h =
    put_rollouts-keeps ros _ k
      (ground (arith, h, has_key-put_workload k (key_of (rollout ro)) (rollout ro) ws))

pub put_deployments-keeps :
    (ds : List Deployment) (ws : List (String × Workload)) (k : String)
    → has_key k ws ≡ true
    → has_key k (put_deployments ds ws) ≡ true
unfolding put_deployments
put_deployments-keeps [] ws k h = h
put_deployments-keeps (d ∷ ds) ws k h =
    put_deployments-keeps ds _ k
      (ground (arith, h, has_key-put_workload k (key_of (deployment d)) (deployment d) ws))

put_workload-IsFound :
    (wl : Workload) (ws : List (String × Workload)) → IsFound (put_workload (key_of wl) wl ws) wl
put_workload-IsFound wl ws =
    ground (arith, has_key-put_workload (key_of wl) (key_of wl) wl ws, eq_refl (key_of wl))

pub put_rollouts-IsFound :
    (ros : List Rollout) (ws : List (String × Workload))
    → All (λ ro. IsFound (put_rollouts ros ws) (rollout ro)) ros
unfolding put_rollouts
put_rollouts-IsFound [] ws = tt
put_rollouts-IsFound (ro ∷ ros) ws = (
  put_rollouts-keeps ros _ (key_of (rollout ro)) (put_workload-IsFound (rollout ro) ws),
  put_rollouts-IsFound ros _,
)

pub put_deployments-IsFound :
    (ds : List Deployment) (ws : List (String × Workload))
    → All (λ d. IsFound (put_deployments ds ws) (deployment d)) ds
unfolding put_deployments
put_deployments-IsFound [] ws = tt
put_deployments-IsFound (d ∷ ds) ws = (
  put_deployments-keeps ds _ (key_of (deployment d)) (put_workload-IsFound (deployment d) ws),
  put_deployments-IsFound ds _,
)
