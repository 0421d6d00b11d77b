-- ===== src/NodeController/Lifecycle/Reconcile.antt =====
-- reconcileWorkload and its patches, as moves of the abstract machine.
use k8s_drain_surge.NodeController.Reading.{admitted-reads, measure_overrun-reads}
use k8s_drain_surge.Base.{
  String, ◌≡◌, ◌≢◌, refl, Bool, true, false, none, Bool-cases, inl, inr, arith, if◌then◌else◌,
}
use k8s_drain_surge.Base.Int.{pos}
use k8s_drain_surge.Errors.{ok}
use k8s_drain_surge.State.{DrainState, get_original_replicas, is_active}
use k8s_drain_surge.Session.{Session, pure, ◌>>=◌}
use k8s_drain_surge.Session.Keeps.{
  Keeps, Writes, Keeps-pure, Keeps-emit, Keeps-bind, Keeps-bind_result, keeps_rules,
}
use k8s_drain_surge.Workload.{Workload, annotations, get_replicas}
use k8s_drain_surge.NodeController.Abort.{NodeReconciler, finished, abort_workload}
use k8s_drain_surge.NodeController.Reconcile.{
  state_of, start_if_active, measure_overrun, reconcile_measured, reconcile_workload, Overrun,
  in_time, timed_out, stale, dispatch, admitted,
}
use k8s_drain_surge.NodeController.Recorded.{IsKnown}
use k8s_drain_surge.NodeController.Recorded.Laws.{IsRecorded}
use k8s_drain_surge.NodeController.Recorded.Reconcile.{admitted-one}
use k8s_drain_surge.NodeController.Lifecycle.{Moves, IsUnderWay, abort_workload-Moves}
use k8s_drain_surge.NodeController.Lifecycle.Handlers.{
  handle_wait_ready-Moves, handle_wait_eviction-Moves, handle_scale_down-Moves,
  handle_cleanup-Moves,
}
use k8s_drain_surge.NodeController.Lifecycle.Start.{handle_pending-Moves}

dispatch-Moves :
    (r : NodeReconciler) (wl : Workload) (node_name : String) (state : DrainState)
    → state_of wl ≡ state
    → IsKnown state
    → (state ≢ DrainState.none → get_original_replicas (annotations wl) ≡ ok (pos 1))
    → (state ≡ DrainState.none → get_replicas wl ≡ pos 1)
    → Keeps (Moves wl) (dispatch r state wl node_name)
unfolding dispatch
dispatch-Moves r wl node_name DrainState.none e k original one =
    handle_pending-Moves r wl node_name e (one refl)
dispatch-Moves r wl node_name DrainState.pending e k original one = elim k [ ]
dispatch-Moves r wl node_name DrainState.scaled_up e k original one =
    handle_wait_ready-Moves r wl (original (λ p. cc)) node_name e
dispatch-Moves r wl node_name DrainState.ready e k original one =
    handle_wait_eviction-Moves r wl (original (λ p. cc)) node_name e
dispatch-Moves r wl node_name DrainState.draining e k original one =
    handle_scale_down-Moves r wl (original (λ p. cc)) e
dispatch-Moves r wl node_name DrainState.done e k original one = handle_cleanup-Moves r wl e
dispatch-Moves r wl node_name (DrainState.other t) e k original one = elim k [ ]

-- A drain that has run too long is one under way.
pub active-IsUnderWay :
    (state : DrainState) → IsKnown state → is_active state ≡ true → IsUnderWay state
active-IsUnderWay DrainState.none k a = cc
active-IsUnderWay DrainState.pending k a = elim k [ ]
active-IsUnderWay DrainState.scaled_up k a = tt
active-IsUnderWay DrainState.ready k a = tt
active-IsUnderWay DrainState.draining k a = tt
active-IsUnderWay DrainState.done k a = cc
active-IsUnderWay (DrainState.other t) k a = elim k [ ]

over-active :
    (r : NodeReconciler) (state : DrainState) (wl : Workload) (s : Session) (over : Overrun)
    → (measure_overrun r.client r.config.readiness_timeout (start_if_active r state wl) s).0
      ≡ ok over
    → over ≢ in_time
    → is_active state ≡ true
unfolding measure_overrun ◌>>=◌
over-active r state wl s over h late = elim (Bool-cases (is_active state)) [
  | inl active ↦ active
  | inr idle ↦ elim (late (in_time-only (rw idle at h))) [ ]
]
  where
    in_time-only :
        (measure_overrun r.client r.config.readiness_timeout none s).0 ≡ ok over → over ≡ in_time
    in_time-only h = ground arith

pub IsUnderWay-none : (state : DrainState) → IsUnderWay state → state ≢ DrainState.none
IsUnderWay-none state u e = elim (rw e at u) [ ]

IsUnderWay-one :
    (wl : Workload)
    → IsUnderWay (state_of wl)
    → IsRecorded (annotations wl)
    → get_original_replicas (annotations wl) ≡ ok (pos 1)
IsUnderWay-one wl u h = h.replicas (IsUnderWay-none (state_of wl) u)

overdue-Moves :
    (r : NodeReconciler) (wl : Workload)
    → IsRecorded (annotations wl)
    → IsUnderWay (state_of wl)
    → Keeps (Moves wl) (abort_workload r wl)
overdue-Moves r wl h u = abort_workload-Moves r wl u (IsUnderWay-one wl u h)

reconcile_measured-Moves :
    (r : NodeReconciler) (wl : Workload) (node_name : String) (over : Overrun)
    → IsRecorded (annotations wl)
    → (over ≢ in_time → IsUnderWay (state_of wl))
    → Keeps (Moves wl) (reconcile_measured r over (state_of wl) wl node_name)
unfolding reconcile_measured
reconcile_measured-Moves r wl node_name stale h way =
    Keeps-bind _ _ (search keeps_rules) (λ _. overdue-Moves r wl h (way (λ p. cc)))
reconcile_measured-Moves r wl node_name timed_out h way =
    Keeps-bind _ _ (search keeps_rules) (λ _. overdue-Moves r wl h (way (λ p. cc)))
reconcile_measured-Moves r wl node_name in_time h way =
    Keeps-bind_result (admitted r (state_of wl) wl node_name) _
      (admitted-reads (Writes (Moves wl)) Keeps-emit r wl node_name (state_of wl))
      (λ s a returned. admitted_rest s a returned)
  where
    admitted_rest :
        (s : Session) (a : Bool)
        → (admitted r (state_of wl) wl node_name s).0 ≡ ok a
        → Keeps (Moves wl) (if a then dispatch r (state_of wl) wl node_name else pure finished)
    admitted_rest s true returned =
        dispatch-Moves r wl node_name (state_of wl) refl h.known h.replicas
          (admitted-one r wl node_name (state_of wl) s returned)
    admitted_rest s false returned = Keeps-pure finished

pub reconcile_workload-Moves :
    (r : NodeReconciler) (wl : Workload) (node_name : String)
    → IsRecorded (annotations wl)
    → Keeps (Moves wl) (reconcile_workload r wl node_name)
unfolding reconcile_workload
reconcile_workload-Moves r wl node_name h =
    Keeps-bind_result _ _
      (measure_overrun-reads (Writes (Moves wl)) Keeps-emit r wl
        (start_if_active r (state_of wl) wl))
      (λ s over returned. reconcile_measured-Moves r wl node_name over h (λ late.
        active-IsUnderWay (state_of wl) h.known
          (over-active r (state_of wl) wl s over returned late)))
