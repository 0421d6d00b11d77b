-- ===== src/RolloutController/Filtering.antt =====
-- The events that rolloutRelevantPredicate drops.
use k8s_drain_surge.Base.{
  ℕ, ◌≡◌, ◌≢◌, refl, suc, false, Option, none, some, List, arith, eq_iff, inl, inr, Bool-cases,
}
use k8s_drain_surge.Base.Int.{ℤ, eqb_ℤ_iff}
use k8s_drain_surge.Base.Maps.{get}
use k8s_drain_surge.Errors.{Result, ok, err}
use k8s_drain_surge.State.{DrainState, drain_state}
use k8s_drain_surge.Kube.{Rollout, Pod, Time}
use k8s_drain_surge.Session.{Session, ◌>>=◌}
use k8s_drain_surge.Workload.{rollout, annotations, get_pod_selector}
use k8s_drain_surge.RestartDetect.{is_restart_stuck}
use k8s_drain_surge.RolloutController.Abort.{RolloutReconciler}
use k8s_drain_surge.RolloutController.Handlers.{handle_restart_pending, restart_pending}
use k8s_drain_surge.RolloutController.Reconcile.{
  reconcile_restart, restart_state_of, measure_restart_overrun, restart_measured, restart_dispatch,
}
use k8s_drain_surge.RolloutController.Watch.{
  rollout_relevant, RolloutEvent, created, updated, deleted, generic, rollout_relevant_predicate,
}

-- A restart that is not pending is not stuck.
settled :
    (ro : Rollout) (pods : List Pod) (grace_period : ℤ) (now : Time)
    → restart_pending ro ≡ false
    → is_restart_stuck ro pods grace_period now ≡ false
unfolding is_restart_stuck
settled ro pods grace_period now h = at ro.restart_at refl ro.restarted_at refl
  where
    at :
        (asked : Option Time)
        → ro.restart_at ≡ asked
        → (reached : Option Time) → ro.restarted_at ≡ reached
        → is_restart_stuck ro pods grace_period now ≡ false
    at none a reached d = ground arith
    at (some t) a none d = ground arith
    at (some t) a (some u) d = ground (arith, eqb_ℤ_iff t u, eqb_ℤ_iff u t)

module _ (r : RolloutReconciler) (ro : Rollout) (s : Session) where
  pending_quiet :
      get (annotations (rollout ro)) r.config.enabled_annotation ≢ "true"
      → (handle_restart_pending r ro s).1.history ≡ s.history
  unfolding handle_restart_pending ◌>>=◌
  pending_quiet out =
      ground (arith, eq_iff (get (annotations (rollout ro)) r.config.enabled_annotation) "true")

  settled_quiet : restart_pending ro ≡ false → (handle_restart_pending r ro s).1.history ≡ s.history
  unfolding handle_restart_pending ◌>>=◌
  settled_quiet h =
      on_answer
        (r.client.list_pods s.calls ro.object_meta.namespace
          (get_pod_selector r.client (rollout ro)))
        refl r.now refl
    where
      on_answer :
          (answer : Result (List Pod))
          → r.client.list_pods s.calls ro.object_meta.namespace
              (get_pod_selector r.client (rollout ro))
            ≡ answer
          → (now : Option (ℕ → Time)) → r.now ≡ now
          → (handle_restart_pending r ro s).1.history ≡ s.history
      on_answer (err e) answered now n = ground (arith, answered)
      on_answer (ok pods) answered none n = ground (
        arith,
        answered,
        settled ro pods r.config.restart_surge_grace_period (r.client.now (suc s.calls)) h,
      )
      on_answer (ok pods) answered (some clock) n = ground (
        arith,
        answered,
        settled ro pods r.config.restart_surge_grace_period (clock (suc s.calls)) h,
      )

  stateless_quiet :
      restart_state_of ro ≡ DrainState.none
      → (handle_restart_pending r ro s).1.history ≡ s.history
      → (reconcile_restart r ro s).1.history ≡ s.history
  unfolding reconcile_restart measure_restart_overrun restart_measured restart_dispatch ◌>>=◌
  stateless_quiet e quiet = rw e (ground (arith, quiet))

  irrelevant_quiet :
      rollout_relevant r.config.enabled_annotation ro ≡ false
      → (reconcile_restart r ro s).1.history ≡ s.history
  unfolding rollout_relevant drain_state
  irrelevant_quiet h = elim (Bool-cases (restart_pending ro)) [
    | inr idle ↦ stateless_quiet (ground arith) (settled_quiet idle)
    | inl asked ↦ stateless_quiet (ground arith) (
        pending_quiet (
          ground
            (arith, eq_iff (get (annotations (rollout ro)) r.config.enabled_annotation) "true")))
  ]

-- The Rollout as it is after the event.
abbrev pub shown : RolloutEvent → Rollout
shown (created ro) = ro
shown (updated old new) = new
shown (deleted ro) = ro
shown (generic ro) = ro

-- An event that rolloutRelevantPredicate drops leaves a Rollout for which reconcileWorkload would
-- write and report nothing, whatever the cluster answers; of an update, the new object counts.
pub reconcile_restart-irrelevant :
    (r : RolloutReconciler) (e : RolloutEvent) (s : Session)
    → rollout_relevant_predicate r.config.enabled_annotation e ≡ false
    → (reconcile_restart r (shown e) s).1.history ≡ s.history
unfolding rollout_relevant_predicate
reconcile_restart-irrelevant r (created ro) s dropped = irrelevant_quiet r ro s dropped
reconcile_restart-irrelevant r (updated old new) s dropped = irrelevant_quiet r new s dropped
reconcile_restart-irrelevant r (deleted ro) s dropped = irrelevant_quiet r ro s dropped
reconcile_restart-irrelevant r (generic ro) s dropped = irrelevant_quiet r ro s dropped
