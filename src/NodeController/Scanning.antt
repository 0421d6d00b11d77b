-- ===== src/NodeController/Scanning.antt =====
-- What RecoverOrphans does to all the workloads that it lists.
use k8s_drain_surge.Base.{
  ℕ, suc, ◌≡◌, ◌≢◌, ◌⊎◌, inl, inr, ◌∙◌, refl, List, [], ◌∷◌, arith, eq_iff, ◌==◌, Bool-cases,
}
use mathlib.Core.List.{map}
use k8s_drain_surge.Base.Maps.{get}
use k8s_drain_surge.Errors.{ok}
use k8s_drain_surge.State.{annotation_drain_node}
use k8s_drain_surge.Kube.{Node, Rollout, Deployment}
use k8s_drain_surge.Session.{Exec, Session, bind_ok, ◌>>=◌, ◌>>◌}
use k8s_drain_surge.Workload.{Workload, rollout, deployment, annotations}
use k8s_drain_surge.Base.Lists.{Any}
use k8s_drain_surge.NodeController.Abort.{NodeReconciler, abort_workload}
use k8s_drain_surge.NodeController.Orphans.{
  is_tainted, recover, recover_rollouts, recover_deployments, recover_orphans,
}
use k8s_drain_surge.NodeController.Taints.{
  IsTaintedNode, is_tainted_iff, recover-keeps, recover-aborts,
}

module _ (r : NodeReconciler) (nodes : List Node) where
  -- The workload names no drain node, or a tainted one of the nodes.
  abbrev pub IsSettled : Workload → Type 0
  IsSettled wl =
      (get (annotations wl) annotation_drain_node ≡ "")
      ⊎ Any (IsTaintedNode r (get (annotations wl) annotation_drain_node)) nodes

  -- The workload names a drain node that is not among the tainted nodes; it may also be gone.
  abbrev pub IsOrphaned : Workload → Type 0
  IsOrphaned wl =
      (get (annotations wl) annotation_drain_node ≢ "")
      × (¬ Any (IsTaintedNode r (get (annotations wl) annotation_drain_node)) nodes)

  -- A scan over workloads gives the orphaned ones up, one after the other, whether or not that
  -- fails, and passes the others over.
  pub data Scans : List Workload → Session → Session → Type 0 where
    ended : (s : Session) → Scans [] s s
    passed :
        {s s' : Session} {wls : List Workload} (wl : Workload)
        → IsSettled wl
        → Scans wls s s'
        → Scans (wl ∷ wls) s s'
    given_up :
        {s s' : Session} {wls : List Workload} (wl : Workload)
        → IsOrphaned wl
        → Scans wls (abort_workload r wl s).1 s'
        → Scans (wl ∷ wls) s s'

  passed_or_given_up : (wl : Workload) → IsSettled wl ⊎ IsOrphaned wl
  passed_or_given_up wl = elim (Bool-cases (get (annotations wl) annotation_drain_node == "")) [
    | inl unnamed ↦ inl (inl ((eq_iff _ "").0 unnamed))
    | inr named ↦
        elim (Bool-cases (is_tainted r nodes (get (annotations wl) annotation_drain_node))) [
          | inl tainted ↦ inl (inr ((is_tainted_iff r nodes _).0 tainted))
          | inr untainted ↦ inr (
            ground (arith, eq_iff (get (annotations wl) annotation_drain_node) ""),
            ground (arith, is_tainted_iff r nodes (get (annotations wl) annotation_drain_node)),
          )
        ]
  ]

  -- The scan goes on with the rest of the list.
  scan_next :
      (wl : Workload) (wls : List Workload) (s : Session) (rest : Exec (Unit {0}))
      → ((s : Session) → (s' : Session) × Scans wls s s' × (rest s ≡ (ok tt, s')))
      → (s' : Session) × Scans (wl ∷ wls) s s' × ((recover r nodes wl >> rest) s ≡ (ok tt, s'))
  scan_next wl wls s rest go = elim (passed_or_given_up wl) [
    | inl settled ↦
        let (s', scan, e) = go s in
        (s', passed wl settled scan, bind_ok _ _ (recover-keeps r nodes wl s settled) ∙ e)
    | inr orphaned ↦
        let (s', scan, e) = go (abort_workload r wl s).1 in
        (
          s',
          given_up wl orphaned scan,
          bind_ok _ _ (recover-aborts r nodes wl s orphaned.0 orphaned.1) ∙ e,
        )
  ]

  recover_rollouts-Scans :
      (ros : List Rollout) (s : Session)
      → (s' : Session) × Scans (map rollout ros) s s'
        × (recover_rollouts r nodes ros s ≡ (ok tt, s'))
  unfolding recover_rollouts
  recover_rollouts-Scans [] s = (s, ended s, unfold ◌>>=◌ in refl)
  recover_rollouts-Scans (ro ∷ ros) s =
      scan_next (rollout ro) (map rollout ros) s (recover_rollouts r nodes ros)
        (recover_rollouts-Scans ros)

  recover_deployments-Scans :
      (ds : List Deployment) (s : Session)
      → (s' : Session) × Scans (map deployment ds) s s'
        × (recover_deployments r nodes ds s ≡ (ok tt, s'))
  unfolding recover_deployments
  recover_deployments-Scans [] s = (s, ended s, unfold ◌>>=◌ in refl)
  recover_deployments-Scans (d ∷ ds) s =
      scan_next (deployment d) (map deployment ds) s (recover_deployments r nodes ds)
        (recover_deployments-Scans ds)

-- If the nodes, the Rollouts and the Deployments can be listed, RecoverOrphans returns without an
-- error, and acts first on the Rollouts and then on the Deployments: in the order of the lists it
-- aborts each workload that names a drain node which is not among the tainted nodes, whether or not
-- an abort fails, and passes over each that names none or a tainted one.
pub recover_orphans-Scans :
    (r : NodeReconciler) (s : Session) (nodes : List Node) (ros : List Rollout)
    (ds : List Deployment)
    → ((k : ℕ) → r.client.list_nodes k ≡ ok nodes)
    → ((k : ℕ) → r.client.list_rollouts k ≡ ok ros)
    → ((k : ℕ) → r.client.list_deployments k ≡ ok ds)
    → (between : Session) × (after : Session) × Scans r nodes
        (map rollout ros)
        (record s { calls = suc (suc s.calls) })
        between
      × Scans r nodes (map deployment ds) (record between { calls = suc between.calls }) after
      × (recover_orphans r s ≡ (ok tt, after))
unfolding recover_orphans ◌>>=◌
recover_orphans-Scans r s nodes ros ds lists_nodes lists_rollouts lists_deployments =
    let (between, first, e) =
      recover_rollouts-Scans r nodes ros (record s { calls = suc (suc s.calls) }) in
    let (after, second, f) =
      recover_deployments-Scans r nodes ds (record between { calls = suc between.calls }) in
    (
      between,
      after,
      first,
      second,
      ground (
        arith,
        lists_nodes s.calls,
        lists_rollouts (suc s.calls),
        e,
        lists_deployments between.calls,
        f,
      ),
    )
