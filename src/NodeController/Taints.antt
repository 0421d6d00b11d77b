-- ===== src/NodeController/Taints.antt =====
-- Which nodes count as tainted, and which workloads RecoverOrphans gives up.
use k8s_drain_surge.Base.{String, ◌≡◌, ◌≢◌, ◌↔◌, ◌⊎◌, true, List, [], ◌∷◌, arith, eq_iff}
use k8s_drain_surge.Base.Maps.{get}
use k8s_drain_surge.Errors.{ok}
use k8s_drain_surge.Config.{DrainTaint}
use k8s_drain_surge.State.{annotation_drain_node}
use k8s_drain_surge.Kube.{Node, Taint}
use k8s_drain_surge.Session.{Session, ◌>>=◌}
use k8s_drain_surge.Workload.{Workload, annotations}
use k8s_drain_surge.Base.Lists.{Any}
use k8s_drain_surge.NodeController.Abort.{NodeReconciler, abort_workload}
use k8s_drain_surge.NodeController.Reconcile.{taint_configured, any_drain_taint, has_drain_taint}
use k8s_drain_surge.NodeController.Orphans.{is_tainted, recover}

-- A taint whose key is that of a configured one; the effects are not compared.
abbrev pub IsConfigured : List DrainTaint → Taint → Type 0
IsConfigured dts taint = Any (λ (dt : DrainTaint). taint.key ≡ dt.key) dts

taint_configured_iff :
    (taint : Taint) (dts : List DrainTaint)
    → (taint_configured taint.key dts ≡ true) ↔ IsConfigured dts taint
unfolding taint_configured
taint_configured_iff taint [] = ground arith
taint_configured_iff taint (dt ∷ dts) =
    ground (arith, taint_configured_iff taint dts, eq_iff taint.key dt.key)

any_drain_taint_iff :
    (taints : List Taint) (dts : List DrainTaint)
    → (any_drain_taint taints dts ≡ true) ↔ Any (IsConfigured dts) taints
unfolding any_drain_taint
any_drain_taint_iff [] dts = ground arith
any_drain_taint_iff (taint ∷ taints) dts =
    ground (arith, taint_configured_iff taint dts, any_drain_taint_iff taints dts)

module _ (r : NodeReconciler) where
  -- hasDrainTaint says yes exactly if one of the node's taints has the key of a configured taint,
  -- whatever its effect.
  pub has_drain_taint_iff :
      (node : Node)
      → (has_drain_taint r node ≡ true) ↔ Any (IsConfigured r.config.drain_taints) node.taints
  unfolding has_drain_taint
  has_drain_taint_iff node = any_drain_taint_iff node.taints r.config.drain_taints

  -- A node of this name with a drain taint.
  pub record IsTaintedNode (name : String) (node : Node) : Type 0 where
    pub named : node.name ≡ name
    pub tainted : Any (IsConfigured r.config.drain_taints) node.taints

  pub is_tainted_iff :
      (nodes : List Node) (name : String)
      → (is_tainted r nodes name ≡ true) ↔ Any (IsTaintedNode name) nodes
  unfolding is_tainted
  is_tainted_iff [] name = ground arith
  is_tainted_iff (node ∷ nodes) name =
      ground (arith, is_tainted_iff nodes name, has_drain_taint_iff node, eq_iff node.name name)

  -- RecoverOrphans does nothing to a workload that names no drain node or names a tainted one.
  pub recover-keeps :
      (nodes : List Node) (wl : Workload) (s : Session)
      → (get (annotations wl) annotation_drain_node ≡ "")
        ⊎ Any (IsTaintedNode (get (annotations wl) annotation_drain_node)) nodes
      → recover r nodes wl s ≡ (ok tt, s)
  unfolding recover ◌>>=◌
  recover-keeps nodes wl s kept = ground (
    arith,
    kept,
    eq_iff (get (annotations wl) annotation_drain_node) "",
    is_tainted_iff nodes (get (annotations wl) annotation_drain_node),
  )

  -- RecoverOrphans acts as abortWorkload does, and drops its error, on a workload that names a
  -- drain node which is not among the tainted nodes (the node may also be gone).
  pub recover-aborts :
      (nodes : List Node) (wl : Workload) (s : Session)
      → get (annotations wl) annotation_drain_node ≢ ""
      → ¬ Any (IsTaintedNode (get (annotations wl) annotation_drain_node)) nodes
      → recover r nodes wl s ≡ (ok tt, (abort_workload r wl s).1)
  unfolding recover ◌>>=◌
  recover-aborts nodes wl s named untainted = ground (
    arith,
    eq_iff (get (annotations wl) annotation_drain_node) "",
    is_tainted_iff nodes (get (annotations wl) annotation_drain_node),
  )
