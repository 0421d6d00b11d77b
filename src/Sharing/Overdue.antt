-- ===== src/Sharing/Overdue.antt =====
-- A restart-surge that has run over its time comes to its end in one reconcile.
use k8s_drain_surge.Base.{
  ℕ, String, ◌≡◌, ◌≢◌, subst, true, none, some, [], ◌∷◌, arith, if◌then◌else◌,
}
use k8s_drain_surge.Base.Int.{pos, ◌<ℤ◌}
use k8s_drain_surge.Errors.{ok}
use k8s_drain_surge.State.{
  DrainState, is_active, parse_restart_surge_start, mem_key, restart_surge_full_keys,
  get_original_replicas,
}
use k8s_drain_surge.Kube.{Rollout, Time}
use k8s_drain_surge.Session.{Session, event, warning, applied, ◌>>=◌}
use k8s_drain_surge.Workload.{rollout, annotations, object_ref, object_meta}
use k8s_drain_surge.Workload.Patching.{MergePatch, Stored, stored, apply_effect, is_owned}
use k8s_drain_surge.RestartDetect.{sub_time}
use k8s_drain_surge.NodeController.Abort.{finished}
use k8s_drain_surge.NodeController.Recorded.{IsKnown}
use k8s_drain_surge.NodeController.Lifecycle.{IsUnderWay}
use k8s_drain_surge.NodeController.Undo.{same_ref_refl}
use k8s_drain_surge.NodeController.Progress.{Accepts, patch_to, history-patch}
use k8s_drain_surge.RolloutController.Abort.{
  RolloutReconciler, restore_hpa, restart_aborted, abort_restart_surge,
}
use k8s_drain_surge.RolloutController.Reconcile.{restart_state_of, reconcile_restart}
use k8s_drain_surge.RolloutController.Yield.{abort_restart_surge-clears, object_ref-restart_aborted}
use k8s_drain_surge.RolloutController.Lifecycle.{replicas-restart_aborted}
use k8s_drain_surge.RolloutController.Timeouts.{clock, reconcile_restart-overrun}
use k8s_drain_surge.Sharing.Runs.{SharedRun, SharedRun-IsShared}

module _ (r : RolloutReconciler) (ro : Rollout) (s : Session) (accepts : Accepts r.client) where
  -- In a cluster that takes the patches, abortRestartSurge returns without an error.
  abort_accepted :
      ((abort_restart_surge r ro s).0 ≡ ok finished)
      × ((abort_restart_surge r ro s).1.history
          ≡ event (object_ref (rollout ro)) warning "RestartSurgeAborted"
            ∷ applied (patch_to (rollout ro) (restart_aborted (rollout ro)))
            ∷ (restore_hpa r.client
                (object_meta (rollout ro)).namespace
                (annotations (rollout ro))
                s).1.history)
  unfolding abort_restart_surge ◌>>=◌
  abort_accepted = ground (
    arith,
    history-patch r.client (rollout ro) (restart_aborted (rollout ro))
        (restore_hpa r.client (object_meta (rollout ro)).namespace (annotations (rollout ro)) s).1
        accepts (object_ref-restart_aborted ro),
  )

  replicas-abort_accepted :
      (mp : MergePatch) (st : Stored)
      → IsUnderWay (restart_state_of ro)
      → get_original_replicas (annotations (rollout ro)) ≡ ok (pos 1)
      → (stored mp (object_ref (rollout ro)) st (abort_restart_surge r ro s).1.history).replicas
        ≡ some (pos 1)
  unfolding stored apply_effect
  replicas-abort_accepted mp st way known =
      rw (abort_accepted.1, same_ref_refl (object_ref (rollout ro)))
        (replicas-restart_aborted ro way known)

active-IsUnderWay : (state : DrainState) → IsKnown state → is_active state ≡ true → IsUnderWay state
active-IsUnderWay DrainState.none known active = absurd (ground (arith, active))
active-IsUnderWay DrainState.pending known active = elim known [ ]
active-IsUnderWay DrainState.scaled_up known active = tt
active-IsUnderWay DrainState.ready known active = tt
active-IsUnderWay DrainState.draining known active = tt
active-IsUnderWay DrainState.done known active = absurd (ground (arith, active))
active-IsUnderWay (DrainState.other _) known active = elim known [ ]

under_way_started : (state : DrainState) → IsUnderWay state → state ≢ DrainState.none
under_way_started state way none_yet = subst IsUnderWay none_yet way

-- Take a copy of the Rollout that a run of both reconcilers has had at any time, in an active
-- restart-surge with a readable start that has run longer than its timeout. Whatever its state, and
-- whether or not it has an HPA: in a cluster that takes the patches, one reconcile leaves one replica
-- and none of the annotations of a restart-surge, the shared ones included, and the other owned
-- annotations of the copy.
pub overdue_surge-ends :
    (mp : MergePatch) (r : RolloutReconciler) (ro : Rollout) (calls : ℕ) (st : Stored)
    (start : Time) (k : String)
    → SharedRun mp r.config ro
    → is_active (restart_state_of ro) ≡ true
    → parse_restart_surge_start r.client.parse_rfc3339 (annotations (rollout ro)) ≡ some start
    → r.config.restart_surge_timeout
      <ℤ sub_time (clock r (record { calls = calls; history = [] })) start
    → Accepts r.client
    → is_owned k ≡ true
    → let after =
        stored mp
          (object_ref (rollout ro))
          st
          (reconcile_restart r ro (record { calls = calls; history = [] })).1.history in
      (after.replicas ≡ some (pos 1))
      × (after.annotations k
          ≡ (if mem_key restart_surge_full_keys k then none else annotations (rollout ro) k))
overdue_surge-ends mp r ro calls st start k run active parsed over accepts owned =
    let shared = SharedRun-IsShared mp r.config ro run in
    let way = active-IsUnderWay (restart_state_of ro) shared.surge_known active in
    rw
      (reconcile_restart-overrun r ro (record { calls = calls; history = [] }) start active parsed
        over)
      (
        replicas-abort_accepted r ro _ accepts mp st way
            (shared.surging (under_way_started (restart_state_of ro) way)),
        abort_restart_surge-clears mp r ro st _ k (abort_accepted r ro _ accepts).0 owned,
      )
