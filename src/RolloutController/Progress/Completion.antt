-- ===== src/RolloutController/Progress/Completion.antt =====
-- A whole restart-surge without an HPA, by rounds: each is one reconcile of the Rollout that the
-- server holds.
use k8s_drain_surge.Base.{
  ℕ, String, ◌≡◌, subst, ◌≤◌, false, none, Option, List, [], arith, if◌then◌else◌,
}
use k8s_drain_surge.Base.Lists.{All}
use k8s_drain_surge.Base.Int.{ℤ, pos}
use k8s_drain_surge.Config.{Config}
use k8s_drain_surge.State.{
  DrainState, clear_restart_surge_annotations, restart_surge_full_keys, mem_key,
}
use k8s_drain_surge.State.Clearing.{erase_all-at}
use k8s_drain_surge.Kube.{Api, Pod, Hpa, Pdb, Rollout, Time}
use k8s_drain_surge.Session.Refused.{Refuses, stored-Unapplied}
use k8s_drain_surge.Session.Retries.{retried, retried-idle}
use k8s_drain_surge.Workload.{rollout, annotations, object_ref, replicas_or_one, get_pod_selector}
use k8s_drain_surge.Workload.Patching.{MergePatch, Stored}
use k8s_drain_surge.RestartDetect.{restart_completed_by_argo}
use k8s_drain_surge.NodeController.Reachable.{view}
use k8s_drain_surge.NodeController.Progress.{Accepts}
use k8s_drain_surge.NodeController.Progress.Handlers.{Lists}
use k8s_drain_surge.RolloutController.Abort.{RolloutReconciler}
use k8s_drain_surge.RolloutController.Handlers.{ready_count}
use k8s_drain_surge.RolloutController.Reconcile.{drain_in_progress}
use k8s_drain_surge.RolloutController.Refused.{reconcile_restart-Inert}
use k8s_drain_surge.RolloutController.Progress.{SurgeInTime, surge_stored}
use k8s_drain_surge.RolloutController.Progress.Handlers.{ArgoFinished}
use k8s_drain_surge.RolloutController.Progress.Phases.{
  IsSurgingAt, surge_becomes_ready, surge_scales_down, surge_becomes_done, surge_is_cleared,
}
use k8s_drain_surge.RolloutController.Progress.Start.{CanSurge, surge_begins}

-- One reconcile: the answers of the cluster to it, the injected clock, the number of its first call,
-- and what Argo reports in the status by then.
pub record Round : Type 0 where
  pub client : Api
  pub now : Option (ℕ → Time)
  pub calls : ℕ
  pub restarted_at : Option Time
  pub phase : String
  pub message : String

-- The Rollout with the status of this round.
abbrev pub reported : Rollout → Round → Rollout
reported ro round = record ro {
  restarted_at = round.restarted_at;
  phase = round.phase;
  message = round.message;
}

-- The Rollout as the server holds it in this round.
abbrev pub held_rollout : Rollout → Round → Stored → Rollout
held_rollout ro round st = record (reported ro round) {
  object_meta = record ro.object_meta { annotations = st.annotations };
  replicas = st.replicas;
}

module _ (config : Config) where
  abbrev pub reconciler : Round → RolloutReconciler
  reconciler round = record { client = round.client; config = config; now = round.now }

  -- The cluster takes the patches of this round, which is in time for a surge that began in `first`.
  pub record IsServing (first round : Round) : Type 0 where
    pub accepts : Accepts round.client
    pub timely : SurgeInTime (reconciler first) (reconciler round)

  -- What the server holds after a reconcile of the Rollout that it held.
  abbrev pub step : MergePatch → Rollout → Round → Stored → Stored
  step mp ro round st = surge_stored mp (reconciler round) (held_rollout ro round st) round.calls

module _ (mp : MergePatch) (config : Config) (first round : Round) (ro : Rollout)
    (free : drain_in_progress ro ≡ false) (serving : IsServing config first round)
    (st : Stored) where
  ready_step :
      (pods : List Pod)
      → IsSurgingAt (reconciler config first) ro DrainState.scaled_up (pos 2) st
      → Lists round.client (rollout ro) pods
      → 2 ≤ ready_count pods
      → IsSurgingAt
          (reconciler config first)
          ro
          DrainState.ready
          (pos 2)
          (step config mp ro round st)
  unfolding get_pod_selector
  ready_step pods at lists ready =
      surge_becomes_ready mp (reconciler config first) (reconciler config round) ro
        (held_rollout ro round st) round.calls free serving.accepts serving.timely pods at lists
        ready

  draining_step :
      (n : ℤ) (pods : List Pod)
      → IsSurgingAt (reconciler config first) ro DrainState.ready n st
      → ArgoFinished (reconciler config round) (reported ro round) pods
      → IsSurgingAt
          (reconciler config first)
          ro
          DrainState.draining
          (pos 1)
          (step config mp ro round st)
  unfolding get_pod_selector restart_completed_by_argo
  draining_step n pods at finished =
      surge_scales_down mp (reconciler config first) (reconciler config round) ro
        (held_rollout ro round st) round.calls free serving.accepts serving.timely n pods at
        finished

  done_step :
      (n : ℤ)
      → IsSurgingAt (reconciler config first) ro DrainState.draining n st
      → IsSurgingAt
          (reconciler config first)
          ro
          DrainState.done
          (pos 1)
          (step config mp ro round st)
  done_step n at =
      surge_becomes_done mp (reconciler config first) (reconciler config round) ro
        (held_rollout ro round st) round.calls free serving.accepts serving.timely n at

  -- The last reconcile takes the keys of the restart-surge off.
  last_step :
      (n : ℤ)
      → IsSurgingAt (reconciler config first) ro DrainState.done n st
      → let final = step config mp ro round st in
        (replicas_or_one final.replicas ≡ n)
        × ((k : String)
            → final.annotations k
              ≡ (if mem_key restart_surge_full_keys k then none else annotations (rollout ro) k))
  unfolding clear_restart_surge_annotations
  last_step n at =
      rw
        (surge_is_cleared mp (reconciler config first) (reconciler config round) ro
          (held_rollout ro round st) round.calls free serving.accepts serving.timely n at)
        (
          at.at_replicas,
          λ k. ground (arith, erase_all-at restart_surge_full_keys st.annotations k, at.others k),
        )

-- The API server refuses every patch of this round.
abbrev pub IsOutage : Round → Type 0
IsOutage round = Refuses round.client

-- It leaves the server as it is, whatever else the cluster answers and however late it is.
outage-idle :
    (mp : MergePatch) (config : Config) (ro : Rollout) (round : Round) (st : Stored)
    → IsOutage round
    → step config mp ro round st ≡ st
outage-idle mp config ro round st refuses =
    let held = held_rollout ro round st in
    stored-Unapplied mp (object_ref (rollout held)) st _ (
      (reconcile_restart-Inert (reconciler config round) refuses held).at
        (record { calls = round.calls; history = [] }) tt)

-- What five steps lead to.
abbrev pub EndsAtRest : Rollout → (ℕ → Round → Stored → Stored) → (a b c d e : Round) → Type 0
EndsAtRest ro next a b c d e =
    let final = next 4 e (next 3 d (next 2 c (next 1 b (next 0 a (view (rollout ro)))))) in
    (replicas_or_one final.replicas ≡ pos 1)
    × ((k : String)
        → final.annotations k
          ≡ (if mem_key restart_surge_full_keys k then none else annotations (rollout ro) k))

-- Five reconciles of what the server holds take a restart-surge from its beginning to its end: a
-- Rollout with a stuck restart that is not drained, that a disruption budget covers and that has no
-- HPA, a cluster that takes the patches of these five in time and that lists two ready pods in the
-- second one, and an Argo that has finished the restart by the third. Before each of the five there
-- may be any number of reconciles in which the API server refuses every patch. The server then holds
-- one replica, no annotation of a restart-surge, and the other annotations as they were.
pub surge-completes :
    (mp : MergePatch) (config : Config) (ro : Rollout) (a b c d e : Round) (tries : ℕ → List Round)
    (hpas : List Hpa) (pdbs : List Pdb) (stuck_pods ready_pods restarted_pods : List Pod)
    → ((i : ℕ) → All IsOutage (tries i))
    → CanSurge (reconciler config a) (reported ro a) hpas pdbs stuck_pods
    → Accepts a.client
    → IsServing config a b
    → IsServing config a c
    → IsServing config a d
    → IsServing config a e
    → Lists b.client (rollout ro) ready_pods
    → 2 ≤ ready_count ready_pods
    → ArgoFinished (reconciler config c) (reported ro c) restarted_pods
    → EndsAtRest ro (retried (step config mp ro) tries) a b c d e
unfolding get_pod_selector restart_completed_by_argo
surge-completes mp config ro a b c d e tries hpas pdbs stuck_pods ready_pods restarted_pods fail can
      accepts in_b in_c in_d in_e lists ready finished =
    let ro' = reported ro a in
    let first =
      surge_begins mp (reconciler config a) ro' a.calls hpas pdbs stuck_pods accepts can in
    let second = ready_step mp config a b ro' can.free in_b _ ready_pods first lists ready in
    let third =
      draining_step mp config a c ro' can.free in_c _ (pos 2) restarted_pods second finished in
    let fourth = done_step mp config a d ro' can.free in_d _ (pos 1) third in
    subst (λ next. EndsAtRest ro next a b c d e)
      (retried-idle (step config mp ro) IsOutage (outage-idle mp config ro) tries fail)
      (last_step mp config a e ro' can.free in_e _ (pos 1) fourth)
