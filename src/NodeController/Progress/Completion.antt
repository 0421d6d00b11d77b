-- ===== src/NodeController/Progress/Completion.antt =====
-- A whole drain without an HPA, from a workload at rest back to it.
use k8s_drain_surge.Base.{ℕ, String, ◌≡◌, subst, true, false, none, List, if◌then◌else◌}
use k8s_drain_surge.Base.Lists.{All}
use k8s_drain_surge.Base.Int.{pos}
use k8s_drain_surge.Config.{Config}
use k8s_drain_surge.Kube.{Pod, Hpa, Pdb}
use k8s_drain_surge.Session.Retries.{retried, retried-idle}
use k8s_drain_surge.Workload.{Workload, annotations, replicas_or_one}
use k8s_drain_surge.Workload.Patching.{MergePatch, Stored, is_owned}
use k8s_drain_surge.Scaler.{ready_elsewhere, on_node}
use k8s_drain_surge.NodeController.Reachable.{view}
use k8s_drain_surge.NodeController.Progress.{Accepts}
use k8s_drain_surge.NodeController.Progress.Handlers.{Lists}
use k8s_drain_surge.NodeController.Progress.Start.{CanStart}
use k8s_drain_surge.NodeController.Progress.Rounds.{
  Round, step, IsOutage, outage-idle, IsServing, first_step, ready_step, draining_step, done_step,
  last_step,
}

-- What five steps lead to.
abbrev pub EndsAtRest : Workload → (ℕ → Round → Stored → Stored) → (a b c d e : Round) → Type 0
EndsAtRest wl next a b c d e =
    let final = next 4 e (next 3 d (next 2 c (next 1 b (next 0 a (view wl))))) in
    (replicas_or_one final.replicas ≡ pos 1)
    × ((k : String) → final.annotations k ≡ (if is_owned k then none else annotations wl k))

-- Five reconciles of what the server holds take a drain from its beginning to its end: a workload
-- that may be drained, that a disruption budget covers and that has no HPA, a cluster that takes the
-- patches of these five in time and that lists first a ready pod of the workload on another node and
-- then no live one on the drained node. Before each of the five there may be any number of reconciles
-- in which the API server refuses every patch. The server then holds one replica, no annotation that
-- the controller owns, and the other annotations as they were.
pub drain-completes :
    (mp : MergePatch) (config : Config) (wl : Workload) (node_name : String) (a b c d e : Round)
    (tries : ℕ → List Round) (hpas : List Hpa) (pdbs : List Pdb) (ready_pods gone_pods : List Pod)
    → ((i : ℕ) → All IsOutage (tries i))
    → CanStart (record { client = a.client; config = config }) wl node_name hpas pdbs none
    → Accepts a.client
    → IsServing config a b
    → IsServing config a c
    → IsServing config a d
    → IsServing config a e
    → Lists b.client wl ready_pods
    → ready_elsewhere node_name ready_pods ≡ true
    → Lists c.client wl gone_pods
    → on_node node_name gone_pods ≡ false
    → EndsAtRest wl (retried (step mp config wl node_name) tries) a b c d e
drain-completes mp config wl node_name a b c d e tries hpas pdbs ready_pods gone_pods fail can
      accepts in_b in_c in_d in_e lists_b ready lists_c gone =
    let first = first_step mp config node_name a wl hpas pdbs accepts can in
    let second =
      ready_step mp config node_name a b in_b _ _ (pos 2) wl ready_pods first lists_b ready in
    let third =
      draining_step mp config node_name a c in_c _ _ (pos 2) wl gone_pods second lists_c gone in
    let fourth = done_step mp config node_name a d in_d _ _ (pos 1) wl third in
    subst (λ next. EndsAtRest wl next a b c d e)
      (retried-idle (step mp config wl node_name) IsOutage (outage-idle mp config wl node_name)
        tries fail)
      (last_step mp config node_name a e in_e _ _ (pos 1) wl fourth)
