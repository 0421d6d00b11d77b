-- ===== src/Scaler/Owners/Chain.antt =====
-- Which workload the owner chain of a pod leads to: ResolveWorkloadFromPod of
-- internal/controller/scaler.go.
use k8s_drain_surge.Base.{suc, String, ◌≡◌, ◌≢◌, ◌↔◌, refl, sym, some, arith, eq_iff}
use k8s_drain_surge.Errors.{Result, ok, err}
use k8s_drain_surge.Kube.{Api, Pod, ReplicaSet, OwnerReference}
use k8s_drain_surge.Session.{Session, ◌>>=◌}
use k8s_drain_surge.Workload.{Workload}
use k8s_drain_surge.Scaler.{replica_set_owner, resolve_owner, resolve_workload_from_pod}
use k8s_drain_surge.Scaler.Owners.{
  IsReplicaSetRef, First, IsSupported, Gets, replica_set_owner-First, First-replica_set_owner,
  resolve_owner-First, First-resolve_owner,
}

-- The owner chain of a pod: the first owner of the pod that is a ReplicaSet, and the first of its
-- owners that is a Rollout or a Deployment, as the calls of the run get them.
pub record IsOwnedBy (c : Api) (pod : Pod) (s : Session) (wl : Workload) : Type 0 where
  pub by : OwnerReference
  pub by_first : First IsReplicaSetRef pod.owner_references by
  pub named : by.name ≢ ""
  pub set : ReplicaSet
  pub gets_set : c.get_replica_set s.calls pod.namespace by.name ≡ ok set
  pub top : OwnerReference
  pub top_first : First IsSupported set.owner_references top
  pub gets : Gets c pod.namespace (suc s.calls) top wl

module _ (c : Api) (pod : Pod) (s : Session) (wl : Workload) where
  resolves : IsOwnedBy c pod s wl → (resolve_workload_from_pod c pod s).0 ≡ ok (some wl)
  unfolding resolve_workload_from_pod ◌>>=◌
  resolves chain = ground (
    arith,
    chain.named,
    chain.gets_set,
    eq_iff chain.by.name "",
    First-replica_set_owner pod.owner_references chain.by chain.by_first,
    First-resolve_owner c pod.namespace chain.set.owner_references
        (record s { calls = suc s.calls }) wl chain.top chain.top_first chain.gets,
  )

  resolved_named :
      (resolve_workload_from_pod c pod s).0 ≡ ok (some wl)
      → replica_set_owner pod.owner_references ≢ ""
  unfolding resolve_workload_from_pod ◌>>=◌
  resolved_named h e = ground (arith, h, e, eq_iff (replica_set_owner pod.owner_references) "")

  resolved :
      (set : ReplicaSet) (name : String)
      → replica_set_owner pod.owner_references ≡ name
      → c.get_replica_set s.calls pod.namespace name ≡ ok set
      → (resolve_workload_from_pod c pod s).0 ≡ ok (some wl)
      → (resolve_owner c pod.namespace set.owner_references (record s { calls = suc s.calls })).0
        ≡ ok (some wl)
  unfolding resolve_workload_from_pod ◌>>=◌
  resolved set name e got h =
      ground (arith, e, got, h, eq_iff (replica_set_owner pod.owner_references) "")

  resolved_set :
      (name : String)
      → replica_set_owner pod.owner_references ≡ name
      → (resolve_workload_from_pod c pod s).0 ≡ ok (some wl)
      → (set : ReplicaSet) × (c.get_replica_set s.calls pod.namespace name ≡ ok set)
  unfolding resolve_workload_from_pod ◌>>=◌
  resolved_set name e h = at (c.get_replica_set s.calls pod.namespace name) refl
    where
      at :
          (answer : Result ReplicaSet)
          → c.get_replica_set s.calls pod.namespace name ≡ answer
          → (set : ReplicaSet) × (c.get_replica_set s.calls pod.namespace name ≡ ok set)
      at (ok set) got = (set, got)
      at (err f) got =
          absurd (ground (arith, e, got, h, eq_iff (replica_set_owner pod.owner_references) ""))

  chain : (resolve_workload_from_pod c pod s).0 ≡ ok (some wl) → IsOwnedBy c pod s wl
  chain h =
      let named = resolved_named h in
      let (by, by_first, e) = replica_set_owner-First pod.owner_references named in
      let (set, gets_set) = resolved_set by.name (sym e) h in
      let (top, top_first, gets) =
        resolve_owner-First c pod.namespace set.owner_references (record s { calls = suc s.calls })
          wl (resolved set by.name (sym e) gets_set h) in
      record {
        by = by;
        by_first = by_first;
        named = rw e named;
        set = set;
        gets_set = gets_set;
        top = top;
        top_first = top_first;
        gets = gets;
      }

  -- ResolveWorkloadFromPod answers with a workload exactly if the owner chain of the pod leads to it:
  -- the first owner of the pod that is a ReplicaSet of apps/v1 has a name and can be got, and so can
  -- the first of its owners that is a Rollout of argoproj.io/v1alpha1 or a Deployment of apps/v1,
  -- which is the workload.
  pub resolve_workload_from_pod_iff :
      ((resolve_workload_from_pod c pod s).0 ≡ ok (some wl)) ↔ IsOwnedBy c pod s wl
  resolve_workload_from_pod_iff = (chain, resolves)
