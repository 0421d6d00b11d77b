-- ===== src/RolloutController/Lifecycle/Reconcile.antt =====
-- reconcileWorkload of the rollout reconciler and its patches, as moves of the abstract machine.
use k8s_drain_surge.Base.{
  ◌≡◌, ◌≢◌, inl, inr, refl, Bool-cases, true, false, Option, none, some, arith,
}
use k8s_drain_surge.Base.Int.{pos}
use k8s_drain_surge.Errors.{ok}
use k8s_drain_surge.State.{DrainState, is_active, get_original_replicas}
use k8s_drain_surge.Kube.{Rollout, Time}
use k8s_drain_surge.Session.{Session, ◌>>=◌}
use k8s_drain_surge.Session.Keeps.{Keeps, Keeps-pure, Keeps-bind, Keeps-bind_result, keeps_rules}
use k8s_drain_surge.Workload.{rollout, annotations}
use k8s_drain_surge.NodeController.Reconcile.{Overrun, in_time, timed_out, stale}
use k8s_drain_surge.NodeController.Recorded.{IsKnown}
use k8s_drain_surge.NodeController.Lifecycle.{IsUnderWay}
use k8s_drain_surge.NodeController.Lifecycle.Reconcile.{active-IsUnderWay, IsUnderWay-none}
use k8s_drain_surge.RolloutController.Abort.{RolloutReconciler, yield_to_drain}
use k8s_drain_surge.RolloutController.Reconcile.{
  restart_state_of, drain_in_progress, restart_dispatch, restart_measured, reconcile_restart,
  measure_restart_overrun, restart_start_if_active,
}
use k8s_drain_surge.RolloutController.Lifecycle.{SurgeMoves}
use k8s_drain_surge.RolloutController.Lifecycle.Handlers.{
  abort_restart_surge-SurgeMoves, yield_to_drain-SurgeMoves, handle_restart_wait_ready-SurgeMoves,
  handle_restart_wait_for_argo-SurgeMoves, handle_restart_scale_down-SurgeMoves,
  handle_restart_cleanup-SurgeMoves,
}
use k8s_drain_surge.RolloutController.Lifecycle.Start.{handle_restart_pending-SurgeMoves}

-- What a cached Rollout must record for its restart-surge: a state that the controller writes, and an
-- original replica count of 1 with it.
pub record IsSurging (ro : Rollout) : Type 0 where
  pub known : IsKnown (restart_state_of ro)
  pub original :
      restart_state_of ro ≢ DrainState.none
      → get_original_replicas (annotations (rollout ro)) ≡ ok (pos 1)

module _ (r : RolloutReconciler) (ro : Rollout) (h : IsSurging ro) where
  restart_dispatch-SurgeMoves :
      (state : DrainState)
      → restart_state_of ro ≡ state
      → IsKnown state
      → drain_in_progress ro ≡ false
      → Keeps (SurgeMoves ro) (restart_dispatch r state ro)
  unfolding restart_dispatch
  restart_dispatch-SurgeMoves DrainState.none e k free =
      handle_restart_pending-SurgeMoves r ro free e
  restart_dispatch-SurgeMoves DrainState.pending e k free = elim k [ ]
  restart_dispatch-SurgeMoves DrainState.scaled_up e k free =
      handle_restart_wait_ready-SurgeMoves r ro free (h.original (rw e (λ p. cc))) e
  restart_dispatch-SurgeMoves DrainState.ready e k free =
      handle_restart_wait_for_argo-SurgeMoves r ro free (h.original (rw e (λ p. cc))) e
  restart_dispatch-SurgeMoves DrainState.draining e k free =
      handle_restart_scale_down-SurgeMoves r ro free (h.original (rw e (λ p. cc))) e
  restart_dispatch-SurgeMoves DrainState.done e k free =
      handle_restart_cleanup-SurgeMoves r ro free e
  restart_dispatch-SurgeMoves (DrainState.other t) e k free = elim k [ ]

  measure_restart_overrun-SurgeMoves :
      (start : Option Time) → Keeps (SurgeMoves ro) (measure_restart_overrun r start)
  unfolding measure_restart_overrun
  measure_restart_overrun-SurgeMoves none = Keeps-pure _
  measure_restart_overrun-SurgeMoves (some start) = search keeps_rules

  under_way : is_active (restart_state_of ro) ≡ true → IsUnderWay (restart_state_of ro)
  under_way active = active-IsUnderWay (restart_state_of ro) h.known active

  counted :
      IsUnderWay (restart_state_of ro)
      → get_original_replicas (annotations (rollout ro)) ≡ ok (pos 1)
  counted way = h.original (IsUnderWay-none (restart_state_of ro) way)

  -- Only an active restart-surge is measured.
  over-active :
      (s : Session) (over : Overrun)
      → (measure_restart_overrun r (restart_start_if_active r (restart_state_of ro) ro) s).0
        ≡ ok over
      → over ≢ in_time
      → is_active (restart_state_of ro) ≡ true
  unfolding measure_restart_overrun ◌>>=◌
  over-active s over returned late = elim (Bool-cases (is_active (restart_state_of ro))) [
    | inl active ↦ active
    | inr idle ↦ absurd (late (in_time-only (rw idle at returned)))
  ]
    where
      in_time-only : (measure_restart_overrun r none s).0 ≡ ok over → over ≡ in_time
      in_time-only e = ground arith

  given_up-SurgeMoves :
      is_active (restart_state_of ro) ≡ true
      → Keeps (SurgeMoves ro) (restart_measured r timed_out (restart_state_of ro) ro)
        × Keeps (SurgeMoves ro) (restart_measured r stale (restart_state_of ro) ro)
  unfolding restart_measured
  given_up-SurgeMoves active =
      let aborts =
        abort_restart_surge-SurgeMoves r ro (counted (under_way active)) (under_way active) in
      (
        Keeps-bind _ _ (search keeps_rules) (λ _. aborts),
        Keeps-bind _ _ (search keeps_rules) (λ _. aborts),
      )

  yields :
      is_active (restart_state_of ro) ≡ true
      → drain_in_progress ro ≡ true
      → Keeps (SurgeMoves ro) (yield_to_drain r ro)
  yields active drained =
      yield_to_drain-SurgeMoves r ro (counted (under_way active)) (under_way active) drained

  restart_measured-SurgeMoves :
      (over : Overrun)
      → (over ≢ in_time → is_active (restart_state_of ro) ≡ true)
      → Keeps (SurgeMoves ro) (restart_measured r over (restart_state_of ro) ro)
  unfolding restart_measured
  restart_measured-SurgeMoves stale active = (given_up-SurgeMoves (active (λ p. cc))).1
  restart_measured-SurgeMoves timed_out active = (given_up-SurgeMoves (active (λ p. cc))).0
  restart_measured-SurgeMoves in_time active =
      search (keeps_rules, yields, restart_dispatch-SurgeMoves (restart_state_of ro) refl h.known)
        depth 9

  pub reconcile_restart-SurgeMoves : Keeps (SurgeMoves ro) (reconcile_restart r ro)
  unfolding reconcile_restart
  reconcile_restart-SurgeMoves =
      Keeps-bind_result _ _
        (measure_restart_overrun-SurgeMoves (restart_start_if_active r (restart_state_of ro) ro))
        (λ s over returned. restart_measured-SurgeMoves over (over-active s over returned))
