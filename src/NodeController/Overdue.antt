-- ===== src/NodeController/Overdue.antt =====
-- A drain that has run over its time comes to its end in one reconcile.
use k8s_drain_surge.Base.{
  ℕ, String, ◌≡◌, ◌≢◌, ◌∙◌, refl, true, none, some, [], arith, if◌then◌else◌,
}
use k8s_drain_surge.Base.Int.{pos, ◌<ℤ◌}
use k8s_drain_surge.Errors.{ok}
use k8s_drain_surge.State.{DrainState, is_active, parse_drain_start}
use k8s_drain_surge.Kube.{Time}
use k8s_drain_surge.Session.{Session, ◌>>=◌}
use k8s_drain_surge.Workload.{Workload, annotations, object_meta}
use k8s_drain_surge.Workload.Patching.{MergePatch, Stored, stored, apply_effect, is_owned}
use k8s_drain_surge.RestartDetect.{sub_time}
use k8s_drain_surge.NodeController.Abort.{
  NodeReconciler, finished, abort_workload, restore_hpa, aborted,
}
use k8s_drain_surge.NodeController.Reconcile.{state_of}
use k8s_drain_surge.NodeController.Reachable.{Reach, Reach-IsRecorded}
use k8s_drain_surge.NodeController.Timeouts.{reconcile_workload-overrun}
use k8s_drain_surge.NodeController.Undo.{abort_workload-restores, object_ref-aborted}
use k8s_drain_surge.NodeController.Lifecycle.Refinement.{stored_after}
use k8s_drain_surge.NodeController.Progress.{Accepts, history-patch}

-- In a cluster that takes the patches, abortWorkload returns without an error.
abort_workload-accepted :
    (r : NodeReconciler) (wl : Workload) (s : Session)
    → Accepts r.client
    → (abort_workload r wl s).0 ≡ ok finished
unfolding abort_workload ◌>>=◌
abort_workload-accepted r wl s accepts = ground (
  arith,
  history-patch r.client wl (aborted wl)
      (restore_hpa r.client (object_meta wl).namespace (annotations wl) s).1 accepts
      (object_ref-aborted wl),
)

active_started : (state : DrainState) → is_active state ≡ true → state ≢ DrainState.none
active_started state active none_yet = ground (arith, active, none_yet)

-- Take a copy of the workload that a run of the reconciler has had at any time, in an active drain
-- with a readable start that has run longer than the timeout. Whatever its state, whether or not it
-- has an HPA, and whichever node is reconciled: in a cluster that takes the patches, one reconcile
-- leaves one replica and no annotation that the controller owns, the other annotations of the copy,
-- and any further ones as the server had them.
pub overdue_drain-ends :
    (mp : MergePatch) (r : NodeReconciler) (wl : Workload) (node_name : String) (calls : ℕ)
    (st : Stored) (start : Time)
    → Reach mp r.config wl
    → is_active (state_of wl) ≡ true
    → parse_drain_start r.client.parse_rfc3339 (annotations wl) ≡ some start
    → r.config.readiness_timeout <ℤ sub_time (r.client.now calls) start
    → Accepts r.client
    → let after = stored_after mp r wl node_name calls st in
      (after.replicas ≡ some (pos 1))
      × ((k : String)
          → after.annotations k ≡ (
              if is_owned k
              then none
              else elim (annotations wl k) [ some v ↦ some v | none ↦ st.annotations k ]))
unfolding stored apply_effect
overdue_drain-ends mp r wl node_name calls st start reach active parsed over accepts =
    let recorded = Reach-IsRecorded mp r.config wl reach in
    let known = recorded.replicas (active_started (state_of wl) active) in
    rw
      (reconcile_workload-overrun r wl node_name (record { calls = calls; history = [] }) start
        active parsed over)
      (let (count, kept) =
          abort_workload-restores mp r wl st _ (abort_workload-accepted r wl _ accepts) in
        (count ∙ rw known refl, kept))
