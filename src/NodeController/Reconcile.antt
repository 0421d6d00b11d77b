-- ===== src/NodeController/Reconcile.antt =====
-- (*NodeReconciler).reconcileWorkload with its guards, shouldProcess, hasDrainTaint, and Reconcile.
use k8s_drain_surge.Base.{
  String, Bool, true, false, ◌&&◌, ◌||◌, not, Option, none, some, List, [], ◌∷◌, ◌++◌, ◌==◌,
  if◌then◌else◌,
}
use k8s_drain_surge.Base.Int.{ℤ, pos, ◌+ℤ◌, int64, ltb_ℤ, leb_ℤ, eqb_ℤ}
use k8s_drain_surge.Base.Maps.{get}
use k8s_drain_surge.Errors.{Result, ok, err, is_not_found}
use k8s_drain_surge.Config.{DrainTaint}
use k8s_drain_surge.State.{
  DrainState, drain_state, is_active, annotation_drain_state, annotation_drain_node,
  parse_drain_start, workload_key,
}
use k8s_drain_surge.Kube.{Api, Node, Pod, Taint, Hpa, Time}
use k8s_drain_surge.Session.{
  Exec, pure, fail, within, attempt, ask, warning, emit, read_clock, ◌>>=◌, ◌>>◌,
}
use k8s_drain_surge.Workload.{
  Workload, get_replicas, object_meta, annotations, object_ref, get_object_kind, is_stable,
  can_surge,
}
use k8s_drain_surge.Scaler.{
  resolve_workload_from_pod, find_matching_hpa, is_pod_terminating, is_finished,
}
use k8s_drain_surge.RestartDetect.{sub_time}
use k8s_drain_surge.NodeController.Abort.{
  NodeReconciler, Outcome, finished, requeue, abort_workload, find_workloads_with_drain_node,
  abort_workloads_for_node,
}
use k8s_drain_surge.NodeController.Handlers.{
  handle_pending, handle_scale_up, handle_wait_ready, handle_wait_eviction, handle_scale_down,
  handle_cleanup,
}

-- DrainState(annotations[AnnotationDrainState])
abbrev pub state_of : Workload → DrainState
state_of wl = drain_state (get (annotations wl) annotation_drain_state)

-- How long an operation has run: within its timeout, over it, or over three times as long.
pub data Overrun : Type 0 where
  in_time timed_out stale : Overrun

-- The tests elapsed > 3*timeout and elapsed > timeout, in this order, in int64.
unfoldable pub overrun : ℤ → ℤ → Overrun
overrun timeout elapsed =
    if ltb_ℤ (int64 (timeout +ℤ timeout +ℤ timeout)) elapsed
    then stale
    else if ltb_ℤ timeout elapsed
    then timed_out
    else in_time

-- The overrun of an operation that began at `start`, if that could be read.
unfoldable pub measure_overrun : Api → ℤ → Option Time → Exec Overrun
measure_overrun c timeout none = pure in_time
measure_overrun c timeout (some start) = do
  now ← read_clock c
  pure (overrun timeout (sub_time now start))

module _ (r : NodeReconciler) where
  -- The last test of shouldProcess; a failed lookup counts as no.
  unfoldable pub hpa_allows : Workload → Result (Option Hpa) → Exec Bool
  hpa_allows wl (err _) = pure false
  hpa_allows wl (ok none) = pure true
  hpa_allows wl (ok (some hpa)) =
      if leb_ℤ hpa.max_replicas (pos 1)
      then (do emit (object_ref wl) warning "DrainSkipped"; pure false)
      else pure true

  unfoldable pub hpa_check : Workload → Exec Bool
  hpa_check wl = do
    hpa ← attempt (
        find_matching_hpa r.client (object_meta wl).namespace (object_meta wl).name
          (get_object_kind wl))
    hpa_allows wl hpa

  -- meta.Annotations[AnnotationDrainNode] names another node.
  abbrev pub drained_elsewhere : Workload → String → Bool
  drained_elsewhere wl node_name =
      let drain_node = get (annotations wl) annotation_drain_node in
      not (drain_node == "") && not (drain_node == node_name)

  unfoldable pub should_process : Workload → String → Exec Bool
  should_process wl node_name =
      if not (get (annotations wl) r.config.enabled_annotation == "true")
      then pure false
      else if not (eqb_ℤ (get_replicas wl) (pos 1))
      then pure false
      else if not (is_stable wl)
      then (do emit (object_ref wl) warning "DrainSkipped"; pure false)
      else if drained_elsewhere wl node_name
      then pure false
      else if not (can_surge wl)
      then (do emit (object_ref wl) warning "DrainSkipped"; pure false)
      else hpa_check wl

  -- The switch of reconcileWorkload.
  unfoldable pub dispatch : DrainState → Workload → String → Exec Outcome
  dispatch DrainState.none wl node_name = handle_pending r wl node_name
  dispatch DrainState.pending wl node_name = handle_scale_up r wl
  dispatch DrainState.scaled_up wl node_name = handle_wait_ready r wl node_name
  dispatch DrainState.ready wl node_name = handle_wait_eviction r wl node_name
  dispatch DrainState.draining wl node_name = handle_scale_down r wl
  dispatch DrainState.done wl node_name = handle_cleanup r wl
  dispatch (DrainState.other _) wl node_name = abort_workload r wl

  -- What a workload must pass before the switch: shouldProcess if no drain is recorded, and
  -- otherwise that no other node is draining it.
  unfoldable pub admitted : DrainState → Workload → String → Exec Bool
  admitted DrainState.none wl node_name = should_process wl node_name
  admitted _ wl node_name = pure (not (drained_elsewhere wl node_name))

  abbrev pub start_if_active : DrainState → Workload → Option Time
  start_if_active state wl =
      if is_active state then parse_drain_start r.client.parse_rfc3339 (annotations wl) else none

  -- reconcileWorkload after the measurement of the overrun.
  unfoldable pub reconcile_measured : Overrun → DrainState → Workload → String → Exec Outcome
  reconcile_measured stale state wl node_name = do
    emit (object_ref wl) warning "DrainStale"
    abort_workload r wl
  reconcile_measured timed_out state wl node_name = do
    emit (object_ref wl) warning "DrainTimeout"
    abort_workload r wl
  reconcile_measured in_time state wl node_name = do
    admit ← admitted state wl node_name
    if admit then dispatch state wl node_name else pure finished

  unfoldable pub reconcile_workload : Workload → String → Exec Outcome
  reconcile_workload wl node_name = do
    over ← measure_overrun r.client r.config.readiness_timeout (start_if_active (state_of wl) wl)
    reconcile_measured over (state_of wl) wl node_name

-- if _, exists := workloads[key]; !exists { workloads[key] = wl }
unfoldable pub has_key {ℓ} : {A : Type ℓ} → String → List (String × A) → Bool
has_key key [] = false
has_key key ((k, w) ∷ ws) = k == key || has_key key ws

unfoldable pub add_workload :
    String → Workload → List (String × Workload) → List (String × Workload)
add_workload key wl ws = if has_key key ws then ws else ws ++ (key, wl) ∷ []

unfoldable pub add_workloads :
    List (String × Workload) → List (String × Workload) → List (String × Workload)
add_workloads [] ws = ws
add_workloads ((key, wl) ∷ more) ws = add_workloads more (add_workload key wl ws)

-- What one pod adds; an error is logged and skipped.
abbrev pub add_resolved :
    Result (Option Workload) → List (String × Workload) → List (String × Workload)
add_resolved (ok (some wl)) ws =
    add_workload (workload_key (object_meta wl).namespace (object_meta wl).name) wl ws
add_resolved _ ws = ws

abbrev pub add_existing :
    Result (List (String × Workload)) → List (String × Workload) → List (String × Workload)
add_existing (ok existing) ws = add_workloads existing ws
add_existing (err _) ws = ws

-- The least requeue delay so far that is not 0, and 0 as long as there is none.
unfoldable pub soonest : ℤ → Result Outcome → ℤ
soonest acc (err _) = acc
soonest acc (ok result) =
    if ltb_ℤ (pos 0) result.requeue_after && (eqb_ℤ acc (pos 0) || ltb_ℤ result.requeue_after acc)
    then result.requeue_after
    else acc

-- if requeueAfter > 0 { return it }
abbrev pub requeue_if_positive : ℤ → Outcome
requeue_if_positive d = if ltb_ℤ (pos 0) d then requeue d else finished

-- hasDrainTaint
unfoldable pub taint_configured : String → List DrainTaint → Bool
taint_configured key [] = false
taint_configured key (dt ∷ dts) = key == dt.key || taint_configured key dts

unfoldable pub any_drain_taint : List Taint → List DrainTaint → Bool
any_drain_taint [] dts = false
any_drain_taint (taint ∷ taints) dts = taint_configured taint.key dts || any_drain_taint taints dts

module _ (r : NodeReconciler) where
  unfoldable pub has_drain_taint : Node → Bool
  has_drain_taint node = any_drain_taint node.taints r.config.drain_taints

  unfoldable pub collect : List Pod → List (String × Workload) → Exec (List (String × Workload))
  collect [] ws = pure ws
  collect (pod ∷ pods) ws =
      let skipped = collect pods ws in
      if is_finished pod || is_pod_terminating pod then skipped else do
        resolved ← attempt (resolve_workload_from_pod r.client pod)
        collect pods (add_resolved resolved ws)

  unfoldable pub reconcile_all : List (String × Workload) → String → ℤ → Exec ℤ
  reconcile_all [] node_name acc = pure acc
  reconcile_all ((key, wl) ∷ ws) node_name acc = do
    result ← attempt (reconcile_workload r wl node_name)
    reconcile_all ws node_name (soonest acc result)

  -- `range_order` is the order in which Go ranges over a map, which it does not specify.
  module _ (range_order : List (String × Workload) → List (String × Workload)) where
    unfoldable pub reconcile_node : Node → Exec Outcome
    reconcile_node node =
        if not (has_drain_taint node) then abort_workloads_for_node r range_order node.name else do
          pods ← within "list pods on node" (ask (λ n. r.client.list_node_pods n node.name))
          resolved ← collect pods []
          existing ← attempt (find_workloads_with_drain_node r node.name)
          delay ← reconcile_all (range_order (add_existing existing resolved)) node.name (pos 0)
          pure (requeue_if_positive delay)

    unfoldable pub on_reply : String → Result Node → Exec Outcome
    on_reply name (ok node) = reconcile_node node
    on_reply name (err e) =
        if is_not_found e then abort_workloads_for_node r range_order name else fail e

    -- Reconcile, for the request with this node's name
    unfoldable pub reconcile : String → Exec Outcome
    reconcile name = do reply ← attempt (ask (λ n. r.client.get_node n name)); on_reply name reply
