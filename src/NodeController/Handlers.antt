-- ===== src/NodeController/Handlers.antt =====
-- The handlers of (*NodeReconciler).reconcileWorkload, one for each drain state.
use k8s_drain_surge.Base.{String, ◌&&◌, not, Option, none, some, ◌==◌, if◌then◌else◌}
use k8s_drain_surge.Base.Int.{ℤ, pos, ◌+ℤ◌, int32, ltb_ℤ, leb_ℤ, eqb_ℤ}
use k8s_drain_surge.Base.Maps.{get, insert}
use k8s_drain_surge.Errors.{ok, err}
use k8s_drain_surge.Strconv.{itoa}
use k8s_drain_surge.State.{
  DrainState, text, annotation_drain_state, annotation_original_replicas, annotation_drain_node,
  annotation_drain_start, annotation_hpa_name, annotation_hpa_original_min_replicas,
  clear_drain_annotations, get_original_replicas,
}
use k8s_drain_surge.Kube.{Api, Hpa, Time}
use k8s_drain_surge.Session.{Exec, pure, within, normal, warning, emit, read_clock, ◌>>=◌, ◌>>◌}
use k8s_drain_surge.Workload.{
  Workload, get_replicas, set_replicas, object_meta, annotations, set_annotations, object_ref,
  get_object_kind, get_pod_selector, patch,
}
use k8s_drain_surge.Scaler.{
  find_matching_pdb, find_matching_hpa, patch_hpa_min_replicas, hpa_min_replicas_or_default,
  is_hpa_at_min_replicas, find_ready_pod_on_other_node, find_pod_on_node,
}
use k8s_drain_surge.NodeController.Abort.{
  NodeReconciler, Outcome, finished, requeue, restore_hpa, abort_workload,
}

-- meta.Annotations[key] = value
abbrev pub annotate : String → String → Workload → Workload
annotate key value wl = set_annotations (insert key value (annotations wl)) wl

-- original + 1 in int32
abbrev pub surge_target : ℤ → ℤ
surge_target original = int32 (original +ℤ pos 1)

-- 250 * time.Millisecond
abbrev pub stale_cache_delay : ℤ
stale_cache_delay = pos 250000000

-- The annotations that handlePending writes before it looks for an HPA.
unfoldable pub surge_started : Api → Workload → String → Time → Workload
surge_started c wl node_name start = annotate annotation_drain_start (c.format_rfc3339 start) (
    annotate annotation_drain_node node_name (
      annotate annotation_original_replicas (itoa (get_replicas wl))
        (annotate annotation_drain_state (text DrainState.scaled_up) wl)))

module _ (r : NodeReconciler) where
  -- handlePending where an HPA manages the workload; `wl` has the annotations already.
  unfoldable pub surge_hpa : Workload → ℤ → Hpa → Exec Outcome
  surge_hpa wl original hpa =
      if ltb_ℤ hpa.max_replicas (surge_target original)
      then (do emit (object_ref wl) warning "DrainSkipped"; pure finished)
      else if is_hpa_at_min_replicas hpa (surge_target original)
      then pure (requeue stale_cache_delay)
      else do
        within "patch workload for scale-up" (
            patch r.client (
              annotate annotation_hpa_original_min_replicas (itoa (hpa_min_replicas_or_default hpa))
                (annotate annotation_hpa_name hpa.name wl)))
        within "patch HPA minReplicas for scale-up" (
            patch_hpa_min_replicas r.client (object_meta wl).namespace hpa.name
              (surge_target original))
        emit (object_ref wl) normal "DrainSurge"
        pure (requeue r.config.requeue_interval)

  -- handlePending where no HPA manages the workload.
  unfoldable pub surge_replicas : Workload → ℤ → Exec Outcome
  surge_replicas wl original = do
    emit (object_ref wl) normal "DrainSurge"
    within "patch workload for scale-up" (patch r.client (set_replicas (surge_target original) wl))
    pure (requeue r.config.requeue_interval)

  abbrev pub surge : Workload → ℤ → Option Hpa → Exec Outcome
  surge wl original none = surge_replicas wl original
  surge wl original (some hpa) = surge_hpa wl original hpa

  unfoldable pub handle_pending : Workload → String → Exec Outcome
  handle_pending wl node_name = do
    has_pdb ← find_matching_pdb r.client (object_meta wl).namespace (get_pod_selector r.client wl)
    if not has_pdb then (do emit (object_ref wl) warning "NoPDB"; pure finished) else do
      start ← read_clock r.client
      hpa ←
          find_matching_hpa r.client (object_meta wl).namespace (object_meta wl).name
            (get_object_kind wl)
      surge (surge_started r.client wl node_name start) (get_replicas wl) hpa

  -- A handler that needs the original replica count aborts where it cannot be read.
  abbrev pub with_original : Workload → (ℤ → Exec Outcome) → Exec Outcome
  with_original wl rest = elim (get_original_replicas (annotations wl)) [
    | ok original ↦ rest original
    | err _ ↦ abort_workload r wl
  ]

  -- if wl.GetReplicas() <= original { event; wl.SetReplicas(original + 1) }
  abbrev pub rescaled : Workload → ℤ → Workload
  rescaled wl original =
      if leb_ℤ (get_replicas wl) original then set_replicas (surge_target original) wl else wl

  unfoldable pub handle_scale_up : Workload → Exec Outcome
  handle_scale_up wl = with_original wl λ original. do
    (if leb_ℤ (get_replicas wl) original
        then emit (object_ref wl) warning "CompetingController"
        else pure tt)
    within "patch workload for scale-up (reentrant)" (
        patch r.client
          (annotate annotation_drain_state (text DrainState.scaled_up) (rescaled wl original)))
    pure (requeue r.config.requeue_interval)

  -- The second half of handleWaitReady: is a pod ready on another node?
  unfoldable pub await_ready : Workload → String → Exec Outcome
  await_ready wl node_name = do
    ready ←
        find_ready_pod_on_other_node r.client (object_meta wl).namespace
          (get_pod_selector r.client wl) node_name
    if ready
        then (do
          within "patch workload to ready"
              (patch r.client (annotate annotation_drain_state (text DrainState.ready) wl))
          pure (requeue r.config.requeue_interval))
        else pure (requeue r.config.requeue_interval)

  unfoldable pub handle_wait_ready : Workload → String → Exec Outcome
  handle_wait_ready wl node_name =
      if get (annotations wl) annotation_hpa_name == ""
      then with_original wl (λ original.
        if leb_ℤ (get_replicas wl) original
        then (do
          within "re-apply scale-up" (patch r.client (set_replicas (surge_target original) wl))
          pure (requeue r.config.requeue_interval))
        else await_ready wl node_name)
      else await_ready wl node_name

  -- Where no HPA is recorded, the replicas are set back; with one, its patch does that.
  abbrev pub scaled_down : Workload → ℤ → Workload
  scaled_down wl original =
      if get (annotations wl) annotation_hpa_name == "" then set_replicas original wl else wl

  unfoldable pub handle_wait_eviction : Workload → String → Exec Outcome
  handle_wait_eviction wl node_name = do
    pod_on_node ←
        find_pod_on_node r.client (object_meta wl).namespace (get_pod_selector r.client wl)
          node_name
    if pod_on_node then pure (requeue r.config.requeue_interval) else do
      within "restore HPA after eviction"
          (restore_hpa r.client (object_meta wl).namespace (annotations wl))
      with_original wl λ original. do
        within "patch workload for scale-down" (
            patch r.client (
              annotate annotation_drain_state (text DrainState.draining) (scaled_down wl original)))
        emit (object_ref wl) normal "DrainScaleDown"
        pure (requeue r.config.requeue_interval)

  -- if HPAName == "" && wl.GetReplicas() != original { wl.SetReplicas(original) }
  abbrev pub corrected : Workload → ℤ → Workload
  corrected wl original =
      if (get (annotations wl) annotation_hpa_name == "") && not (eqb_ℤ (get_replicas wl) original)
      then set_replicas original wl
      else wl

  unfoldable pub handle_scale_down : Workload → Exec Outcome
  handle_scale_down wl = with_original wl λ original. do
    within "patch workload to done" (
        patch r.client
          (annotate annotation_drain_state (text DrainState.done) (corrected wl original)))
    pure (requeue r.config.requeue_interval)

  unfoldable pub handle_cleanup : Workload → Exec Outcome
  handle_cleanup wl = do
    within "patch workload for cleanup"
        (patch r.client (set_annotations (clear_drain_annotations (annotations wl)) wl))
    emit (object_ref wl) normal "DrainComplete"
    pure finished
