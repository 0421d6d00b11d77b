-- ===== src/RolloutController/Timeouts.antt =====
-- Restart-surges that have run over their time, also while the Rollout is being drained.
use k8s_drain_surge.Base.{suc, ◌≡◌, refl, sym, true, none, some, ◌∷◌, arith, if◌then◌else◌}
use k8s_drain_surge.Base.Int.{◌+ℤ◌, ◌<ℤ◌, int64, ltb_ℤ}
use k8s_drain_surge.Errors.{ok}
use k8s_drain_surge.State.{
  is_active, parse_restart_surge_start, annotation_drain_state, annotation_original_replicas,
}
use k8s_drain_surge.Kube.{Rollout, Time}
use k8s_drain_surge.Session.{Session, event, warning, ◌>>=◌}
use k8s_drain_surge.Workload.{rollout, annotations, object_ref}
use k8s_drain_surge.Workload.Patching.{MergePatch, Stored, stored}
use k8s_drain_surge.RestartDetect.{sub_time}
use k8s_drain_surge.NodeController.Abort.{finished}
use k8s_drain_surge.NodeController.Reconcile.{overrun}
use k8s_drain_surge.RolloutController.Abort.{RolloutReconciler, abort_restart_surge}
use k8s_drain_surge.RolloutController.Reconcile.{
  reconcile_restart, restart_state_of, measure_restart_overrun, restart_measured,
}
use k8s_drain_surge.RolloutController.Yield.{abort_restart_surge-clears}

-- What the reconciler's clock says, if it is asked now.
abbrev pub clock : RolloutReconciler → Session → Time
clock r s = elim r.now [ none ↦ r.client.now s.calls | some now ↦ now s.calls ]

-- The session in which the overrun is reported.
abbrev pub reported : RolloutReconciler → Rollout → Time → Session → Session
reported r ro start s = record {
  calls = suc s.calls;
  history =
      event (object_ref (rollout ro)) warning (
        if ltb_ℤ
          (int64 (
            r.config.restart_surge_timeout +ℤ r.config.restart_surge_timeout
            +ℤ r.config.restart_surge_timeout))
          (sub_time (clock r s) start)
        then "RestartSurgeStale"
        else "RestartSurgeTimeout")
      ∷ s.history;
}

module _ (r : RolloutReconciler) (ro : Rollout) (s : Session) (start : Time) where
  -- An active restart-surge with a readable start that has run longer than its timeout is aborted,
  -- after the warning that fits the overrun, whatever its state, and also while the Rollout is
  -- being drained.
  pub reconcile_restart-overrun :
      is_active (restart_state_of ro) ≡ true
      → parse_restart_surge_start r.client.parse_rfc3339 (annotations (rollout ro)) ≡ some start
      → r.config.restart_surge_timeout <ℤ sub_time (clock r s) start
      → reconcile_restart r ro s ≡ abort_restart_surge r ro (reported r ro start s)
  unfolding reconcile_restart measure_restart_overrun restart_measured overrun ◌>>=◌
  reconcile_restart-overrun active parsed over = rw (active, parsed) (ground arith)

  -- If reconcileWorkload returns without an error for an active restart-surge with a readable start
  -- that has run longer than its timeout, the server keeps the cached drain state, also that of a
  -- drain in progress, and has no original replica count any more.
  pub overrun-loses_replicas :
      (mp : MergePatch) (st : Stored)
      → is_active (restart_state_of ro) ≡ true
      → parse_restart_surge_start r.client.parse_rfc3339 (annotations (rollout ro)) ≡ some start
      → r.config.restart_surge_timeout <ℤ sub_time (clock r s) start
      → (reconcile_restart r ro s).0 ≡ ok finished
      → let after = stored mp (object_ref (rollout ro)) st (reconcile_restart r ro s).1.history in
        (after.annotations annotation_drain_state ≡ annotations (rollout ro) annotation_drain_state)
        × (after.annotations annotation_original_replicas ≡ none)
  overrun-loses_replicas mp st active parsed over h =
      rw (reconcile_restart-overrun active parsed over) (
        abort_restart_surge-clears mp r ro st (reported r ro start s) annotation_drain_state
            (rw (sym (reconcile_restart-overrun active parsed over)) h) refl,
        abort_restart_surge-clears mp r ro st (reported r ro start s) annotation_original_replicas
            (rw (sym (reconcile_restart-overrun active parsed over)) h) refl,
      )
