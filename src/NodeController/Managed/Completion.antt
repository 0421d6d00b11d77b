-- ===== src/NodeController/Managed/Completion.antt =====
-- A whole drain with an HPA, from a workload at rest back to it.
use k8s_drain_surge.Base.{
  ℕ, String, ◌≡◌, subst, ◌∙◌, true, false, Option, none, some, List, if◌then◌else◌,
}
use k8s_drain_surge.Base.Lists.{All}
use k8s_drain_surge.Base.Int.{ℤ, pos}
use k8s_drain_surge.Config.{Config}
use k8s_drain_surge.Kube.{Pod, Hpa, Pdb}
use k8s_drain_surge.Session.Retries.{retried, retried-idle}
use k8s_drain_surge.Workload.{Workload, annotations}
use k8s_drain_surge.Workload.Patching.{MergePatch, is_owned}
use k8s_drain_surge.Scaler.{ready_elsewhere, on_node, hpa_min_replicas_or_default}
use k8s_drain_surge.NodeController.Reachable.{view}
use k8s_drain_surge.NodeController.Progress.{Accepts}
use k8s_drain_surge.NodeController.Progress.Handlers.{Lists}
use k8s_drain_surge.NodeController.Progress.Start.{CanStart}
use k8s_drain_surge.NodeController.Progress.Rounds.{Round, IsOutage, IsServing}
use k8s_drain_surge.NodeController.Managed.Rounds.{
  Scaled, scale, managed_step, managed_outage-idle, first_step, ready_step, draining_step,
  done_step, last_step,
}

module _ (wl : Workload) (hpa : Hpa) where
  -- What five steps lead to, with what the HPA's controller sets before all but the first.
  abbrev pub EndsAtRest :
      (ℕ → Round → Scaled → Scaled)
      → (a b c d e : Round) → (in_b in_c in_d in_e : Option ℤ) → Option ℤ
      → Type 0
  EndsAtRest next a b c d e in_b in_c in_d in_e minimum =
      let surged = next 0 a (record { workload = view wl; min_replicas = minimum }) in
      let done = next 3 d (scale in_d (next 2 c (scale in_c (next 1 b (scale in_b surged))))) in
      let final = next 4 e (scale in_e done) in
      (surged.min_replicas ≡ some (pos 2))
      × (final.min_replicas ≡ some (hpa_min_replicas_or_default hpa))
      × (final.workload.replicas ≡ in_e)
      × ((k : String)
          → final.workload.annotations k ≡ (if is_owned k then none else annotations wl k))

-- With an HPA that has room, the first reconcile of a drain raises the HPA's minReplicas to 2, and
-- four more, under the conditions of a drain without an HPA, give the HPA its minReplicas back and
-- clear the bookkeeping, whatever replicas the HPA's controller sets in between. Before each of the
-- five there may be any number of reconciles in which the API server refuses every patch. The server
-- then holds the replicas that the HPA's controller has set last, no annotation that the reconciler
-- owns, and the other annotations as they were.
pub managed_drain-completes :
    (mp : MergePatch) (config : Config) (wl : Workload) (node_name : String) (hpa : Hpa)
    (a b c d e : Round) (in_b in_c in_d in_e minimum : Option ℤ) (hpas : List Hpa) (pdbs : List Pdb)
    (tries : ℕ → List Round) (ready_pods gone_pods : List Pod)
    → ((i : ℕ) → All IsOutage (tries i))
    → CanStart (record { client = a.client; config = config }) wl node_name hpas pdbs (some hpa)
    → Accepts a.client
    → IsServing config a b
    → IsServing config a c
    → IsServing config a d
    → IsServing config a e
    → Lists b.client wl ready_pods
    → ready_elsewhere node_name ready_pods ≡ true
    → Lists c.client wl gone_pods
    → on_node node_name gone_pods ≡ false
    → EndsAtRest wl hpa
        (retried (managed_step mp config wl node_name hpa) tries)
        a
        b
        c
        d
        e
        in_b
        in_c
        in_d
        in_e
        minimum
managed_drain-completes mp config wl node_name hpa a b c d e in_b in_c in_d in_e minimum hpas pdbs
      tries ready_pods gone_pods fail can accepts serving_b serving_c serving_d serving_e lists_b
      ready lists_c gone =
    let has = can.allows in
    let next = managed_step mp config wl node_name hpa in
    let surged = next a (record { workload = view wl; min_replicas = minimum }) in
    let ready_now = next b (scale in_b surged) in
    let draining_now = next c (scale in_c ready_now) in
    let done_now = next d (scale in_d draining_now) in
    let first = first_step mp config node_name hpa a wl hpas pdbs minimum accepts can in
    let second =
      ready_step mp config node_name hpa has a b serving_b in_b surged wl ready_pods first.0 lists_b
        ready in
    let third =
      draining_step mp config node_name hpa has a c serving_c in_c ready_now wl gone_pods second.0
        lists_c gone in
    let fourth = done_step mp config node_name hpa has a d serving_d in_d draining_now wl third.0 in
    let fifth = last_step mp config node_name hpa has a e serving_e in_e done_now wl fourth.0 in
    subst (λ step. EndsAtRest wl hpa step a b c d e in_b in_c in_d in_e minimum)
      (retried-idle next IsOutage (managed_outage-idle mp config wl node_name hpa) tries fail)
      (first.1, fifth.2 ∙ (fourth.1 ∙ third.1), fifth.0, fifth.1)
