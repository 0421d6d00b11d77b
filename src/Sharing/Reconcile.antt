-- ===== src/Sharing/Reconcile.antt =====
-- reconcileWorkload of the rollout reconciler and the annotations that the two reconcilers share.
use k8s_drain_surge.Base.{◌≡◌, refl, false, not, Option, none, some, arith}
use k8s_drain_surge.Base.Int.{ℤ, pos, eqb_ℤ, eqb_ℤ_iff}
use k8s_drain_surge.State.{DrainState}
use k8s_drain_surge.Kube.{Api, Hpa, Rollout, Time}
use k8s_drain_surge.Session.Keeps.{Keeps, Keeps-pure, Keeps-bind, keeps_rules}
use k8s_drain_surge.Workload.{Workload, rollout, get_replicas, set_replicas}
use k8s_drain_surge.Scaler.{find_matching_hpa, find_matching_pdb}
use k8s_drain_surge.NodeController.Handlers.{surge_target}
use k8s_drain_surge.NodeController.Reconcile.{Overrun, in_time, timed_out, stale}
use k8s_drain_surge.NodeController.Recorded.{Fine, patch_hpa-Keeps, recorded_rules}
use k8s_drain_surge.NodeController.Recorded.Start.{itoa-one, managed-kept}
use k8s_drain_surge.RolloutController.Abort.{RolloutReconciler}
use k8s_drain_surge.RolloutController.Handlers.{
  handle_restart_pending, start_restart_surge, restart_surge, restart_surge_hpa,
  restart_surge_replicas, restart_surge_started,
}
use k8s_drain_surge.RolloutController.Reconcile.{
  restart_state_of, restart_dispatch, restart_measured, reconcile_restart, measure_restart_overrun,
  restart_start_if_active,
}
use k8s_drain_surge.Sharing.{IsShared, IsShared-Bookkeeping, surge_begun-IsShared}
use k8s_drain_surge.Sharing.Surges.{
  Kept, abort_restart_surge-Keeps, yield_to_drain-Keeps, handle_restart_scale_up-Keeps,
  handle_restart_wait_ready-Keeps, handle_restart_wait_for_argo-Keeps,
  handle_restart_scale_down-Keeps, handle_restart_cleanup-Keeps,
}

started-Kept :
    (c : Api) (ro : Rollout) (start : Time)
    → Kept (rollout ro)
    → get_replicas (rollout ro) ≡ pos 1
    → Kept (restart_surge_started c (rollout ro) start)
unfolding restart_surge_started
started-Kept c ro start h one =
    rw (one, itoa-one) (surge_begun-IsShared (c.format_rfc3339 start) _ h)

module _ (r : RolloutReconciler) where
  restart_surge-Keeps :
      (wl : Workload) (n : ℤ) (hpa : Option Hpa)
      → Kept wl
      → Kept (set_replicas (surge_target n) wl)
      → Keeps (Fine IsShared) (restart_surge r wl n hpa)
  unfolding restart_surge_replicas restart_surge_hpa
  restart_surge-Keeps wl n none h surged = search recorded_rules
  restart_surge-Keeps wl n (some hpa) h surged =
      search (recorded_rules, patch_hpa-Keeps, managed-kept IsShared-Bookkeeping) depth 9

  resized-Kept :
      (c : Api) (ro : Rollout) (start : Time) (n : ℤ)
      → Kept (restart_surge_started c (rollout ro) start)
      → Kept (set_replicas n (restart_surge_started c (rollout ro) start))
  unfolding restart_surge_started
  resized-Kept c ro start n h = h

  start_restart_surge-Keeps :
      (ro : Rollout)
      → Kept (rollout ro)
      → get_replicas (rollout ro) ≡ pos 1
      → Keeps (Fine IsShared) (start_restart_surge r ro)
  unfolding start_restart_surge find_matching_pdb find_matching_hpa
  start_restart_surge-Keeps ro h one =
      search (keeps_rules, restart_surge-Keeps, started-Kept, resized-Kept) depth 12

  -- The test of handleRestartPending for one replica has come out well.
  one_replica : (n : ℤ) → not (eqb_ℤ n (pos 1)) ≡ false → n ≡ pos 1
  one_replica n e = ground (arith, e, eqb_ℤ_iff n (pos 1))

  handle_restart_pending-Keeps :
      (ro : Rollout) → Kept (rollout ro) → Keeps (Fine IsShared) (handle_restart_pending r ro)
  unfolding handle_restart_pending
  handle_restart_pending-Keeps ro h =
      search (keeps_rules, start_restart_surge-Keeps, one_replica) depth 12

  restart_dispatch-Keeps :
      (ro : Rollout) (state : DrainState)
      → restart_state_of ro ≡ state
      → Kept (rollout ro)
      → Keeps (Fine IsShared) (restart_dispatch r state ro)
  unfolding restart_dispatch
  restart_dispatch-Keeps ro DrainState.none e h = handle_restart_pending-Keeps ro h
  restart_dispatch-Keeps ro DrainState.pending e h = handle_restart_scale_up-Keeps r ro h
  restart_dispatch-Keeps ro DrainState.scaled_up e h =
      handle_restart_wait_ready-Keeps r ro h (rw e (λ p. cc))
  restart_dispatch-Keeps ro DrainState.ready e h =
      handle_restart_wait_for_argo-Keeps r ro h (rw e (λ p. cc))
  restart_dispatch-Keeps ro DrainState.draining e h =
      handle_restart_scale_down-Keeps r ro h (rw e (λ p. cc))
  restart_dispatch-Keeps ro DrainState.done e h = handle_restart_cleanup-Keeps r ro h
  restart_dispatch-Keeps ro (DrainState.other t) e h = abort_restart_surge-Keeps r ro h

  measure_restart_overrun-Keeps :
      (start : Option Time) → Keeps (Fine IsShared) (measure_restart_overrun r start)
  unfolding measure_restart_overrun
  measure_restart_overrun-Keeps none = Keeps-pure _
  measure_restart_overrun-Keeps (some start) = search keeps_rules

  restart_measured-Keeps :
      (ro : Rollout) (over : Overrun)
      → Kept (rollout ro)
      → Keeps (Fine IsShared) (restart_measured r over (restart_state_of ro) ro)
  unfolding restart_measured
  restart_measured-Keeps ro stale h =
      Keeps-bind _ _ (search keeps_rules) (λ _. abort_restart_surge-Keeps r ro h)
  restart_measured-Keeps ro timed_out h =
      Keeps-bind _ _ (search keeps_rules) (λ _. abort_restart_surge-Keeps r ro h)
  restart_measured-Keeps ro in_time h =
      search
        (keeps_rules, yield_to_drain-Keeps, restart_dispatch-Keeps ro (restart_state_of ro) refl)
        depth 9

  pub reconcile_restart-Keeps :
      (ro : Rollout) → Kept (rollout ro) → Keeps (Fine IsShared) (reconcile_restart r ro)
  unfolding reconcile_restart
  reconcile_restart-Keeps ro h =
      Keeps-bind _ _
        (measure_restart_overrun-Keeps (restart_start_if_active r (restart_state_of ro) ro))
        (λ over. restart_measured-Keeps ro over h)
