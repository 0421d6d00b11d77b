-- ===== src/RolloutController/Handlers.antt =====
-- The handlers of (*RolloutReconciler).reconcileWorkload, one for each restart-surge state.
use k8s_drain_surge.Base.{
  ℕ, suc, Bool, false, ◌&&◌, ◌||◌, not, Option, none, some, List, [], ◌∷◌, ◌==◌, leb, if◌then◌else◌,
}
use k8s_drain_surge.Base.Int.{ℤ, pos, ltb_ℤ, leb_ℤ, eqb_ℤ}
use k8s_drain_surge.Base.Maps.{get}
use k8s_drain_surge.Errors.{ok, err}
use k8s_drain_surge.Strconv.{itoa}
use k8s_drain_surge.State.{
  DrainState, text, annotation_restart_surge_state, annotation_restart_surge_start,
  annotation_original_replicas, annotation_hpa_name, annotation_hpa_original_min_replicas,
  clear_restart_surge_annotations, get_original_replicas,
}
use k8s_drain_surge.Kube.{Api, Rollout, Hpa, Pod, Time, time_equal}
use k8s_drain_surge.Session.{Exec, pure, within, normal, warning, emit, ◌>>=◌, ◌>>◌}
use k8s_drain_surge.Workload.{
  Workload, rollout, get_replicas, set_replicas, object_meta, annotations, set_annotations,
  object_ref, get_pod_selector, can_surge, is_stable_for_restart, patch,
}
use k8s_drain_surge.Scaler.{
  find_matching_pdb, find_matching_hpa, patch_hpa_min_replicas, hpa_min_replicas_or_default,
  is_hpa_at_min_replicas, list_matching_pods, is_pod_ready, is_pod_terminating,
}
use k8s_drain_surge.RestartDetect.{is_restart_stuck, restart_completed_by_argo}
use k8s_drain_surge.NodeController.Abort.{Outcome, finished, requeue}
use k8s_drain_surge.NodeController.Handlers.{annotate, surge_target, stale_cache_delay}
use k8s_drain_surge.RolloutController.Abort.{
  RolloutReconciler, time_now, restore_hpa, abort_restart_surge,
}

-- A restart is asked for and status.restartedAt has not reached it.
abbrev pub restart_pending : Rollout → Bool
restart_pending ro = elim ro.restart_at [
  | none ↦ false
  | some t ↦ not (time_equal ro.restarted_at (some t))
]

-- The annotations that handleRestartPending writes before it looks for an HPA.
unfoldable pub restart_surge_started : Api → Workload → Time → Workload
restart_surge_started c wl start =
    annotate annotation_restart_surge_start (c.format_rfc3339 start) (
      annotate annotation_original_replicas (itoa (get_replicas wl))
        (annotate annotation_restart_surge_state (text DrainState.scaled_up) wl))

-- The count of handleRestartWaitReady: pods that are ready and not terminating.
unfoldable pub ready_count : List Pod → ℕ
ready_count [] = 0
ready_count (p ∷ pods) =
    let rest = ready_count pods in
    if is_pod_terminating p then rest else if is_pod_ready p.conditions then suc rest else rest

module _ (r : RolloutReconciler) where
  unfoldable pub restart_surge_hpa : Workload → ℤ → Hpa → Exec Outcome
  restart_surge_hpa wl original hpa =
      if ltb_ℤ hpa.max_replicas (surge_target original)
      then (do emit (object_ref wl) warning "RestartSurgeSkipped"; pure finished)
      else if is_hpa_at_min_replicas hpa (surge_target original)
      then pure (requeue stale_cache_delay)
      else do
        within "patch rollout for restart-surge scale-up" (
            patch r.client (
              annotate annotation_hpa_original_min_replicas (itoa (hpa_min_replicas_or_default hpa))
                (annotate annotation_hpa_name hpa.name wl)))
        within "patch HPA minReplicas for restart-surge" (
            patch_hpa_min_replicas r.client (object_meta wl).namespace hpa.name
              (surge_target original))
        emit (object_ref wl) normal "RestartSurgeStart"
        pure (requeue r.config.requeue_interval)

  unfoldable pub restart_surge_replicas : Workload → ℤ → Exec Outcome
  restart_surge_replicas wl original = do
    emit (object_ref wl) normal "RestartSurgeStart"
    within "patch rollout for restart-surge scale-up"
        (patch r.client (set_replicas (surge_target original) wl))
    pure (requeue r.config.requeue_interval)

  abbrev pub restart_surge : Workload → ℤ → Option Hpa → Exec Outcome
  restart_surge wl original none = restart_surge_replicas wl original
  restart_surge wl original (some hpa) = restart_surge_hpa wl original hpa

  -- handleRestartPending once the restart is stuck and the Rollout is stable.
  unfoldable pub start_restart_surge : Rollout → Exec Outcome
  start_restart_surge ro =
      let wl = rollout ro in
      do
        has_pdb ←
            find_matching_pdb r.client (object_meta wl).namespace (get_pod_selector r.client wl)
        if not has_pdb then pure finished else do
          start ← time_now r
          hpa ←
              find_matching_hpa r.client (object_meta wl).namespace (object_meta wl).name "Rollout"
          restart_surge (restart_surge_started r.client wl start) (get_replicas wl) hpa

  unfoldable pub handle_restart_pending : Rollout → Exec Outcome
  handle_restart_pending ro =
      let wl = rollout ro in
      if not (get (annotations wl) r.config.enabled_annotation == "true")
      then pure finished
      else if not (can_surge wl)
      then pure finished
      else if not (eqb_ℤ (get_replicas wl) (pos 1))
      then pure finished
      else do
        pods ← list_matching_pods r.client (object_meta wl).namespace (get_pod_selector r.client wl)
        now ← time_now r
        if not (is_restart_stuck ro pods r.config.restart_surge_grace_period now)
            then (if restart_pending ro
                then pure (requeue r.config.restart_surge_grace_period)
                else pure finished)
            else if not (is_stable_for_restart ro)
            then (do
              emit (object_ref wl) warning "RestartSurgeSkipped"
              pure (requeue r.config.requeue_interval))
            else start_restart_surge ro

  abbrev pub restart_with_original : Rollout → (ℤ → Exec Outcome) → Exec Outcome
  restart_with_original ro rest = elim (get_original_replicas (annotations (rollout ro))) [
    | ok original ↦ rest original
    | err _ ↦ abort_restart_surge r ro
  ]

  unfoldable pub handle_restart_scale_up : Rollout → Exec Outcome
  handle_restart_scale_up ro =
      let wl = rollout ro in
      restart_with_original ro λ original.
        if not (get (annotations wl) annotation_hpa_name == "") || ltb_ℤ original (get_replicas wl)
        then pure (requeue r.config.requeue_interval)
        else do
          emit (object_ref wl) warning "CompetingController"
          within "re-apply restart-surge scale-up"
              (patch r.client (set_replicas (surge_target original) wl))
          pure (requeue r.config.requeue_interval)

  -- The second half of handleRestartWaitReady.
  unfoldable pub await_two_ready : Rollout → Exec Outcome
  await_two_ready ro =
      let wl = rollout ro in
      do
        pods ← list_matching_pods r.client (object_meta wl).namespace (get_pod_selector r.client wl)
        if leb 2 (ready_count pods)
            then (do
              emit (object_ref wl) normal "RestartSurgeReady"
              within "patch rollout to ready" (
                  patch r.client
                    (annotate annotation_restart_surge_state (text DrainState.ready) wl))
              pure (requeue r.config.requeue_interval))
            else pure (requeue r.config.requeue_interval)

  unfoldable pub handle_restart_wait_ready : Rollout → Exec Outcome
  handle_restart_wait_ready ro =
      let wl = rollout ro in
      if get (annotations wl) annotation_hpa_name == ""
      then restart_with_original ro (λ original.
        if leb_ℤ (get_replicas wl) original
        then (do
          within "re-apply restart-surge scale-up"
              (patch r.client (set_replicas (surge_target original) wl))
          pure (requeue r.config.requeue_interval))
        else await_two_ready ro)
      else await_two_ready ro

  -- handleRestartWaitForArgo once Argo has finished.
  unfoldable pub scale_down_after_restart : Rollout → Exec Outcome
  scale_down_after_restart ro =
      let wl = rollout ro in
      do
        within "restore HPA after restart"
            (restore_hpa r.client (object_meta wl).namespace (annotations wl))
        restart_with_original ro λ original. do
          within "patch rollout for restart-surge scale-down" (
              patch r.client (
                annotate annotation_restart_surge_state (text DrainState.draining) (
                  if get (annotations wl) annotation_hpa_name == ""
                  then set_replicas original wl
                  else wl)))
          emit (object_ref wl) normal "RestartSurgeScaleDown"
          pure (requeue r.config.requeue_interval)

  -- statusCaughtUp
  abbrev pub status_caught_up : Rollout → Bool
  status_caught_up ro = elim ro.restart_at [
    | none ↦ false
    | some t ↦ time_equal ro.restarted_at (some t)
  ]

  unfoldable pub handle_restart_wait_for_argo : Rollout → Exec Outcome
  handle_restart_wait_for_argo ro =
      let wl = rollout ro in
      if status_caught_up ro then scale_down_after_restart ro else do
        pods ← list_matching_pods r.client (object_meta wl).namespace (get_pod_selector r.client wl)
        if not (restart_completed_by_argo ro pods)
            then pure (requeue r.config.requeue_interval)
            else scale_down_after_restart ro

  unfoldable pub handle_restart_scale_down : Rollout → Exec Outcome
  handle_restart_scale_down ro =
      let wl = rollout ro in
      restart_with_original ro λ original. do
        within "patch rollout to done" (
            patch r.client (
              annotate annotation_restart_surge_state (text DrainState.done) (
                if (get (annotations wl) annotation_hpa_name == "")
                  && not (eqb_ℤ (get_replicas wl) original)
                then set_replicas original wl
                else wl)))
        pure (requeue r.config.requeue_interval)

  unfoldable pub handle_restart_cleanup : Rollout → Exec Outcome
  handle_restart_cleanup ro =
      let wl = rollout ro in
      do
        within "patch rollout for restart-surge cleanup"
            (patch r.client (set_annotations (clear_restart_surge_annotations (annotations wl)) wl))
        emit (object_ref wl) normal "RestartSurgeComplete"
        pure finished
