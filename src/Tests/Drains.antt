-- ===== src/Tests/Drains.antt =====
-- Witnesses for the node reconciler, on one Deployment that is drained from node n1.
use k8s_drain_surge.Base.{
  String, eq_iff, ◌≡◌, ◌≢◌, ◌↔◌, inr, refl, true, none, some, List, [], ◌∷◌, arith, if◌then◌else◌,
}
use k8s_drain_surge.Base.Int.{pos, ◌+ℤ◌, ◌-ℤ◌, ◌<ℤ◌, wrap}
use k8s_drain_surge.Errors.{ok}
use k8s_drain_surge.Strconv.{itoa, atoi, decimal, digit}
use k8s_drain_surge.Config.{default_config}
use k8s_drain_surge.State.{
  DrainState, drain_state, is_active, get_original_replicas, parse_drain_start,
  parse_rfc3339_annotation,
}
use k8s_drain_surge.Kube.{Pod}
use k8s_drain_surge.Session.{◌>>=◌, send}
use k8s_drain_surge.Workload.{
  rollout, Workload, deployment, annotations, object_ref, set_annotations, spec_replicas, patch,
  patch_replicas_and_annotations, annotation_patch, get_pod_selector, selector_from_label_selector,
  is_stable, progressed, can_surge,
}
use k8s_drain_surge.Workload.Patching.{stored, apply_effect, is_owned}
use k8s_drain_surge.Scaler.{
  find_pod_on_node, on_node, find_ready_pod_on_other_node, ready_elsewhere, is_pod_ready,
  find_matching_hpa, first_hpa, find_matching_pdb, any_pdb_covers, pdb_covers, requirements_match,
  requirements_found, requirement_found,
}
use k8s_drain_surge.Base.Lists.{Any}
use k8s_drain_surge.Scaler.Matching.{IsLiveOn, IsReadyElsewhere}
use k8s_drain_surge.RestartDetect.{sub_time}
use k8s_drain_surge.NodeController.Abort.{
  NodeReconciler, abort_workloads_for_node, finished, abort_workload, aborted, restore_hpa,
  restore_min, abort_all,
}
use k8s_drain_surge.NodeController.Handlers.{
  handle_wait_eviction, await_ready, handle_pending, surge_started, surge_replicas,
}
use k8s_drain_surge.NodeController.Reconcile.{
  in_time, state_of, reconcile_workload, reconcile_measured, should_process, measure_overrun,
  admitted, hpa_check, hpa_allows, dispatch,
}
use k8s_drain_surge.NodeController.Recorded.Laws.{IsRecorded}
use k8s_drain_surge.NodeController.Reachable.{Reach, start, reconciled, view, Reach-IsRecorded}
use k8s_drain_surge.NodeController.Undo.{restored_replicas, abort_workload-restores}
use k8s_drain_surge.NodeController.Safety.{handle_wait_eviction-acts, await_ready-acts}
use k8s_drain_surge.NodeController.Admission.{IsEligible, should_process_iff, left_alone}
use k8s_drain_surge.NodeController.Colliding.{abort_workloads_for_node-misses}
use k8s_drain_surge.NodeController.Every.{aborted_in_turn, AllAborted, abort_all-attempts}
use k8s_drain_surge.Tests.{
  two_pods, cluster, session, node_reconciler, opted_in, draining_in, web, web_rollout, merge_patch,
  server,
}

abbrev pub idle : Workload
idle = deployment (web opted_in)

abbrev in_state : String → Workload
in_state state = deployment (web (draining_in state))

-- The Deployment as the server holds it after the reconciler has started its drain.
abbrev pub started : Workload
started =
    set_annotations
      (stored merge_patch (object_ref idle) (view idle)
        (reconcile_workload node_reconciler idle "n1" session).1.history).annotations
      idle

idle_state : state_of idle ≡ DrainState.none
unfolding drain_state
idle_state = refl

pub n1_named : ◌≢◌ {A = String} "n1" ""
n1_named e = cc

n1_is_not_n2 : ◌≢◌ {A = String} "n1" "n2"
n1_is_not_n2 e = ground (arith, e, eq_iff "n1" "n2")

pub starts : Reach merge_patch default_config started
starts =
    reconciled cluster 0 "n1" idle idle started (start idle idle_state) (start idle idle_state)
      n1_named (λ k owned. refl)

pub starts_scaled_up : state_of started ≡ DrainState.scaled_up
unfolding reconcile_workload measure_overrun reconcile_measured admitted should_process is_stable
    progressed can_surge hpa_check hpa_allows find_matching_hpa first_hpa dispatch handle_pending
    find_matching_pdb any_pdb_covers pdb_covers requirements_match requirements_found
    requirement_found get_pod_selector selector_from_label_selector surge_started surge_replicas
    patch patch_replicas_and_annotations annotation_patch send stored apply_effect drain_state ◌+ℤ◌
    wrap itoa decimal digit ◌>>=◌
starts_scaled_up = refl

Reach-IsRecorded_example : IsRecorded (annotations started)
Reach-IsRecorded_example = Reach-IsRecorded merge_patch default_config started starts

abort_succeeds : (abort_workload node_reconciler (in_state "ready") session).0 ≡ ok finished
unfolding abort_workload aborted restore_hpa restore_min patch patch_replicas_and_annotations send
    ◌>>=◌ get_original_replicas atoi
abort_succeeds = refl

abort_workload-restores_example :
    let wl = in_state "ready" in
    let after =
      stored merge_patch
        (object_ref wl)
        server
        (abort_workload node_reconciler wl session).1.history in
    let before = stored merge_patch (object_ref wl) server session.history in
    (after.replicas ≡ restored_replicas (get_original_replicas (annotations wl)) (spec_replicas wl))
    × ((k : String)
        → after.annotations k ≡ (
            if is_owned k
            then none
            else elim (annotations wl k) [ some v ↦ some v | none ↦ before.annotations k ]))
abort_workload-restores_example =
    abort_workload-restores merge_patch node_reconciler (in_state "ready") server session
      abort_succeeds

evicted_acts : (handle_wait_eviction node_reconciler (in_state "ready") "n1" session).1.history ≢ []
unfolding handle_wait_eviction find_pod_on_node on_node get_original_replicas atoi restore_hpa
    restore_min patch patch_replicas_and_annotations send wrap ◌>>=◌
evicted_acts = λ e. cc

handle_wait_eviction-acts_example :
    (pods : List Pod) × (ok two_pods ≡ ok pods) × ¬ (Any (IsLiveOn "n1") pods)
handle_wait_eviction-acts_example =
    handle_wait_eviction-acts node_reconciler (in_state "ready") "n1" session evicted_acts

ready_acts : (await_ready node_reconciler (in_state "scaled-up") "n1" session).1.history ≢ []
unfolding await_ready find_ready_pod_on_other_node ready_elsewhere is_pod_ready patch
    patch_replicas_and_annotations send ◌>>=◌
ready_acts = λ e. cc

await_ready-acts_example :
    (pods : List Pod) × (ok two_pods ≡ ok pods) × Any (IsReadyElsewhere "n1") pods
await_ready-acts_example =
    await_ready-acts node_reconciler (in_state "scaled-up") "n1" session ready_acts

late : parse_drain_start cluster.parse_rfc3339 (annotations (in_state "ready")) ≡ some (pos 0)
unfolding parse_drain_start parse_rfc3339_annotation atoi
late = refl

overrun : pos 600000000000 <ℤ sub_time (pos 700000000000) (pos 0)
unfolding sub_time ◌-ℤ◌
overrun = ground arith

ready_active : is_active (state_of (in_state "ready")) ≡ true
unfolding drain_state
ready_active = refl

should_process_iff_example :
    ((should_process node_reconciler idle "n1" session).0 ≡ ok true)
    ↔ IsEligible node_reconciler idle "n1" session
should_process_iff_example = should_process_iff node_reconciler idle "n1" session

ready_drains : state_of (in_state "ready") ≢ DrainState.none
ready_drains e = ground (arith, e, ready_active)

left_alone_example :
    reconcile_measured node_reconciler in_time
      (state_of (in_state "ready"))
      (in_state "ready")
      "n2"
      session
    ≡ (ok finished, session)
left_alone_example =
    left_alone node_reconciler (in_state "ready") "n2" session
      (inr (ready_drains, n1_named, n1_is_not_n2))

abbrev to_abort : List (String × Workload)
to_abort = ("shop/web", in_state "ready") ∷ []

abort_all-attempts_example :
    ((abort_all node_reconciler to_abort none session).1
      ≡ aborted_in_turn node_reconciler to_abort session)
    × (((abort_all node_reconciler to_abort none session).0 ≡ ok finished)
        ↔ AllAborted node_reconciler to_abort session)
abort_all-attempts_example = abort_all-attempts node_reconciler to_abort session

-- The index has a Rollout and a Deployment with one name.
abbrev colliding : NodeReconciler
colliding = record {
  client = record cluster {
    list_draining_rollouts = λ k name. ok (web_rollout (draining_in "ready") ∷ []);
    list_draining_deployments = λ k name. ok (web (draining_in "ready") ∷ []);
  };
  config = default_config;
}

abort_workloads_for_node-misses_example :
    let history =
      (abort_workloads_for_node colliding
        (λ ws. ws)
        "n1"
        (record { calls = 0; history = [] })).1.history in
    (history
      ≡ (abort_workload colliding
          (deployment (web (draining_in "ready")))
          (record { calls = 2; history = [] })).1.history)
    × (stored merge_patch (object_ref (rollout (web_rollout (draining_in "ready")))) server history
        ≡ server)
abort_workloads_for_node-misses_example =
    abort_workloads_for_node-misses merge_patch colliding (λ ws. ws)
      (web_rollout (draining_in "ready")) (web (draining_in "ready")) "n1" 0 server (λ p. refl) refl
      refl refl refl
