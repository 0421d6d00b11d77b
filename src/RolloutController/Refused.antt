-- ===== src/RolloutController/Refused.antt =====
-- A reconcile of the rollout reconciler in which the API server refuses every patch.
use k8s_drain_surge.Base.{Option, none, some}
use k8s_drain_surge.Base.Int.{ℤ}
use k8s_drain_surge.State.{DrainState, get_original_replicas}
use k8s_drain_surge.Kube.{Rollout, Hpa, Time}
use k8s_drain_surge.Session.{Exec}
use k8s_drain_surge.Session.Keeps.{Keeps-pure, Keeps-result}
use k8s_drain_surge.Session.Refused.{Refuses, Inert, inert_rules}
use k8s_drain_surge.Workload.{Workload, rollout, annotations}
use k8s_drain_surge.Scaler.{find_matching_hpa, find_matching_pdb}
use k8s_drain_surge.NodeController.Abort.{Outcome}
use k8s_drain_surge.NodeController.Reconcile.{Overrun, in_time, timed_out, stale}
use k8s_drain_surge.NodeController.Refused.{refused_rules}
use k8s_drain_surge.RolloutController.Abort.{RolloutReconciler, abort_restart_surge, yield_to_drain}
use k8s_drain_surge.RolloutController.Handlers.{
  handle_restart_pending, start_restart_surge, restart_surge, restart_surge_replicas,
  restart_surge_hpa, restart_with_original, handle_restart_scale_up, await_two_ready,
  handle_restart_wait_ready, scale_down_after_restart, handle_restart_wait_for_argo,
  handle_restart_scale_down, handle_restart_cleanup,
}
use k8s_drain_surge.RolloutController.Reconcile.{
  measure_restart_overrun, restart_dispatch, restart_measured, reconcile_restart,
}

module _ (r : RolloutReconciler) (refuses : Refuses r.client) where
  abort_restart_surge-Inert : (ro : Rollout) → Inert (abort_restart_surge r ro)
  unfolding abort_restart_surge
  abort_restart_surge-Inert ro = search refused_rules

  yield_to_drain-Inert : (ro : Rollout) → Inert (yield_to_drain r ro)
  unfolding yield_to_drain
  yield_to_drain-Inert ro = search refused_rules

  restart_surge-Inert :
      (wl : Workload) (n : ℤ) (hpa : Option Hpa) → Inert (restart_surge r wl n hpa)
  unfolding restart_surge_replicas restart_surge_hpa
  restart_surge-Inert wl n none = search refused_rules
  restart_surge-Inert wl n (some hpa) = search refused_rules depth 9

  start_restart_surge-Inert : (ro : Rollout) → Inert (start_restart_surge r ro)
  unfolding start_restart_surge find_matching_pdb find_matching_hpa
  start_restart_surge-Inert ro = search (inert_rules, restart_surge-Inert) depth 12

  handle_restart_pending-Inert : (ro : Rollout) → Inert (handle_restart_pending r ro)
  unfolding handle_restart_pending
  handle_restart_pending-Inert ro = search (inert_rules, start_restart_surge-Inert) depth 12

  restart_with_original-Inert :
      (ro : Rollout) (rest : ℤ → Exec Outcome)
      → ((n : ℤ) → Inert (rest n))
      → Inert (restart_with_original r ro rest)
  restart_with_original-Inert ro rest k =
      Keeps-result (get_original_replicas (annotations (rollout ro))) rest
        (abort_restart_surge r ro) (abort_restart_surge-Inert ro) k

  handle_restart_scale_up-Inert : (ro : Rollout) → Inert (handle_restart_scale_up r ro)
  unfolding handle_restart_scale_up
  handle_restart_scale_up-Inert ro = restart_with_original-Inert ro _ λ n. search refused_rules

  await_two_ready-Inert : (ro : Rollout) → Inert (await_two_ready r ro)
  unfolding await_two_ready
  await_two_ready-Inert ro = search refused_rules depth 9

  handle_restart_wait_ready-Inert : (ro : Rollout) → Inert (handle_restart_wait_ready r ro)
  unfolding handle_restart_wait_ready
  handle_restart_wait_ready-Inert ro =
      search (refused_rules, restart_with_original-Inert, await_two_ready-Inert) depth 9

  scale_down_after_restart-Inert : (ro : Rollout) → Inert (scale_down_after_restart r ro)
  unfolding scale_down_after_restart
  scale_down_after_restart-Inert ro = search (refused_rules, restart_with_original-Inert) depth 9

  handle_restart_wait_for_argo-Inert : (ro : Rollout) → Inert (handle_restart_wait_for_argo r ro)
  unfolding handle_restart_wait_for_argo
  handle_restart_wait_for_argo-Inert ro =
      search (inert_rules, scale_down_after_restart-Inert) depth 9

  handle_restart_scale_down-Inert : (ro : Rollout) → Inert (handle_restart_scale_down r ro)
  unfolding handle_restart_scale_down
  handle_restart_scale_down-Inert ro = restart_with_original-Inert ro _ λ n. search refused_rules

  handle_restart_cleanup-Inert : (ro : Rollout) → Inert (handle_restart_cleanup r ro)
  unfolding handle_restart_cleanup
  handle_restart_cleanup-Inert ro = search refused_rules

  restart_dispatch-Inert : (state : DrainState) (ro : Rollout) → Inert (restart_dispatch r state ro)
  unfolding restart_dispatch
  restart_dispatch-Inert DrainState.none ro = handle_restart_pending-Inert ro
  restart_dispatch-Inert DrainState.pending ro = handle_restart_scale_up-Inert ro
  restart_dispatch-Inert DrainState.scaled_up ro = handle_restart_wait_ready-Inert ro
  restart_dispatch-Inert DrainState.ready ro = handle_restart_wait_for_argo-Inert ro
  restart_dispatch-Inert DrainState.draining ro = handle_restart_scale_down-Inert ro
  restart_dispatch-Inert DrainState.done ro = handle_restart_cleanup-Inert ro
  restart_dispatch-Inert (DrainState.other t) ro = abort_restart_surge-Inert ro

  measure_restart_overrun-Inert : (start : Option Time) → Inert (measure_restart_overrun r start)
  unfolding measure_restart_overrun
  measure_restart_overrun-Inert none = Keeps-pure _
  measure_restart_overrun-Inert (some start) = search inert_rules

  restart_measured-Inert :
      (over : Overrun) (state : DrainState) (ro : Rollout)
      → Inert (restart_measured r over state ro)
  unfolding restart_measured
  restart_measured-Inert stale state ro = search (inert_rules, abort_restart_surge-Inert)
  restart_measured-Inert timed_out state ro = search (inert_rules, abort_restart_surge-Inert)
  restart_measured-Inert in_time state ro =
      search (inert_rules, yield_to_drain-Inert, restart_dispatch-Inert) depth 9

  pub reconcile_restart-Inert : (ro : Rollout) → Inert (reconcile_restart r ro)
  unfolding reconcile_restart
  reconcile_restart-Inert ro =
      search (inert_rules, measure_restart_overrun-Inert, restart_measured-Inert)
