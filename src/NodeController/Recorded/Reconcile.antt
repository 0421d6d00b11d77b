-- ===== src/NodeController/Recorded/Reconcile.antt =====
-- The bookkeeping of reconcileWorkload, for every property with the laws.
use k8s_drain_surge.Base.{String, ◌≡◌, ◌≢◌, refl, Bool, true, false, if◌then◌else◌}
use k8s_drain_surge.Base.Int.{pos}
use k8s_drain_surge.Errors.{ok}
use k8s_drain_surge.State.{DrainState}
use k8s_drain_surge.Session.{Session, pure}
use k8s_drain_surge.Session.Keeps.{
  Keeps, Keeps-pure, Keeps-bind, Keeps-bind_result, Keeps-emit, keeps_rules,
}
use k8s_drain_surge.Workload.{Workload, annotations, get_replicas}
use k8s_drain_surge.NodeController.Abort.{NodeReconciler, finished}
use k8s_drain_surge.NodeController.Reconcile.{
  state_of, start_if_active, reconcile_measured, reconcile_workload, Overrun, in_time, timed_out,
  stale, dispatch, admitted,
}
use k8s_drain_surge.Base.Maps.{GoMap}
use k8s_drain_surge.NodeController.Reading.{admitted-reads, measure_overrun-reads}
use k8s_drain_surge.NodeController.Recorded.{Bookkeeping, Fine, abort_workload-Keeps}
use k8s_drain_surge.NodeController.Recorded.Handlers.{
  handle_scale_up-Keeps, handle_wait_ready-Keeps, handle_wait_eviction-Keeps,
  handle_scale_down-Keeps, handle_cleanup-Keeps,
}
use k8s_drain_surge.NodeController.Recorded.Start.{should_process-one, handle_pending-Keeps}

-- The switch, in every state: a state that is recorded, or none with one replica.
pub dispatch-Keeps :
    {R : GoMap String → Type 0}
    → Bookkeeping R
    → (r : NodeReconciler) (wl : Workload) (node_name : String) (state : DrainState)
    → state_of wl ≡ state
    → node_name ≢ ""
    → R (annotations wl)
    → (state ≡ DrainState.none → get_replicas wl ≡ pos 1)
    → Keeps (Fine R) (dispatch r state wl node_name)
unfolding dispatch
dispatch-Keeps b r wl node_name DrainState.none e named h one =
    handle_pending-Keeps b r wl node_name h named (one refl)
dispatch-Keeps b r wl node_name DrainState.pending e named h one =
    handle_scale_up-Keeps b r wl h (rw e (λ p. cc))
dispatch-Keeps b r wl node_name DrainState.scaled_up e named h one =
    handle_wait_ready-Keeps b r wl h (rw e (λ p. cc)) node_name
dispatch-Keeps b r wl node_name DrainState.ready e named h one =
    handle_wait_eviction-Keeps b r wl h (rw e (λ p. cc)) node_name
dispatch-Keeps b r wl node_name DrainState.draining e named h one =
    handle_scale_down-Keeps b r wl h (rw e (λ p. cc))
dispatch-Keeps b r wl node_name DrainState.done e named h one =
    handle_cleanup-Keeps b r wl h (rw e (λ p. cc))
dispatch-Keeps b r wl node_name (DrainState.other t) e named h one = abort_workload-Keeps b r wl

-- What the gate before the switch lets through.
pub admitted-one :
    (r : NodeReconciler) (wl : Workload) (node_name : String) (state : DrainState) (s : Session)
    → (admitted r state wl node_name s).0 ≡ ok true
    → state ≡ DrainState.none
    → get_replicas wl ≡ pos 1
unfolding admitted
admitted-one r wl node_name state s h e =
    should_process-one r wl node_name s (rw (e, admitted) at h)

pub reconcile_measured-Keeps :
    {R : GoMap String → Type 0}
    → Bookkeeping R
    → (r : NodeReconciler) (wl : Workload) (node_name : String) (over : Overrun) → node_name ≢ ""
    → R (annotations wl)
    → Keeps (Fine R) (reconcile_measured r over (state_of wl) wl node_name)
unfolding reconcile_measured
reconcile_measured-Keeps b r wl node_name stale named h =
    Keeps-bind _ _ (search keeps_rules) (λ _. abort_workload-Keeps b r wl)
reconcile_measured-Keeps b r wl node_name timed_out named h =
    Keeps-bind _ _ (search keeps_rules) (λ _. abort_workload-Keeps b r wl)
reconcile_measured-Keeps {R = R} b r wl node_name in_time named h =
    Keeps-bind_result (admitted r (state_of wl) wl node_name) _
      (admitted-reads _ Keeps-emit r wl node_name (state_of wl))
      (λ s a returned. admitted_rest s a returned)
  where
    admitted_rest :
        (s : Session) (a : Bool)
        → (admitted r (state_of wl) wl node_name s).0 ≡ ok a
        → Keeps (Fine R) (if a then dispatch r (state_of wl) wl node_name else pure finished)
    admitted_rest s true returned =
        dispatch-Keeps b r wl node_name (state_of wl) refl named h
          (admitted-one r wl node_name (state_of wl) s returned)
    admitted_rest s false returned = Keeps-pure finished

pub reconcile_workload-Keeps :
    {R : GoMap String → Type 0}
    → Bookkeeping R
    → (r : NodeReconciler) (wl : Workload) (node_name : String) → node_name ≢ ""
    → R (annotations wl)
    → Keeps (Fine R) (reconcile_workload r wl node_name)
unfolding reconcile_workload
reconcile_workload-Keeps b r wl node_name named h =
    Keeps-bind _ _ (measure_overrun-reads _ Keeps-emit r wl (start_if_active r (state_of wl) wl))
      (λ over. reconcile_measured-Keeps b r wl node_name over named h)
