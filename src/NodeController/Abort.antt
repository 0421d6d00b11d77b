-- ===== src/NodeController/Abort.antt =====
-- The struct NodeReconciler, and what gives a drain up: restoreHPA, abortWorkload,
-- findWorkloadsWithDrainNode, abortWorkloadsForNode.
use k8s_drain_surge.Base.{String, Option, none, some, List, [], ◌∷◌, ◌==◌, if◌then◌else◌}
use k8s_drain_surge.Base.Int.{ℤ, pos, int32}
use k8s_drain_surge.Base.Maps.{GoMap, get}
use k8s_drain_surge.Errors.{Error, Result, ok, err, invalid, joined}
use k8s_drain_surge.Strconv.{atoi}
use k8s_drain_surge.Config.{Config}
use k8s_drain_surge.State.{
  annotation_hpa_name, annotation_hpa_original_min_replicas, clear_drain_annotations,
  get_original_replicas, workload_key,
}
use k8s_drain_surge.Kube.{Api, Rollout, Deployment}
use k8s_drain_surge.Session.{Exec, pure, fail, within, attempt, ask, warning, emit, ◌>>=◌, ◌>>◌}
use k8s_drain_surge.Workload.{
  Workload, rollout, deployment, set_replicas, object_meta, annotations, set_annotations,
  object_ref, patch,
}
use k8s_drain_surge.Scaler.{patch_hpa_min_replicas}

pub record NodeReconciler : Type 0 where
  pub client : Api
  pub config : Config

-- ctrl.Result: after how long to come back, and 0 for not at all.
pub record Outcome : Type 0 where
  pub requeue_after : ℤ

abbrev pub finished : Outcome
finished = record { requeue_after = pos 0 }

abbrev pub requeue : ℤ → Outcome
requeue d = record { requeue_after = d }

unfoldable pub restore_min : Api → String → String → Option ℤ → Exec (Unit {0})
restore_min c namespace hpa_name none = fail (invalid annotation_hpa_original_min_replicas)
restore_min c namespace hpa_name (some n) = patch_hpa_min_replicas c namespace hpa_name (int32 n)

-- (*NodeReconciler).restoreHPA
unfoldable pub restore_hpa : Api → String → GoMap String → Exec (Unit {0})
restore_hpa c namespace m =
    let hpa_name = get m annotation_hpa_name in
    if hpa_name == ""
    then pure tt
    else restore_min c namespace hpa_name (atoi (get m annotation_hpa_original_min_replicas))

-- if original, err := getOriginalReplicas(…); err == nil { wl.SetReplicas(original) }
abbrev pub replicas_restored : Result ℤ → Workload → Workload
replicas_restored (ok original) wl = set_replicas original wl
replicas_restored (err _) wl = wl

-- The object as abortWorkload sends it.
unfoldable pub aborted : Workload → Workload
aborted wl =
    let wl' = replicas_restored (get_original_replicas (annotations wl)) wl in
    set_annotations (clear_drain_annotations (annotations wl')) wl'

module _ (r : NodeReconciler) where
  unfoldable pub abort_workload : Workload → Exec Outcome
  abort_workload wl = do
    attempt (restore_hpa r.client (object_meta wl).namespace (annotations wl)) >> pure tt
    within "abort workload" (patch r.client (aborted wl))
    emit (object_ref wl) warning "DrainAborted"
    pure finished

-- workloads[key] = wl
unfoldable pub put_workload {ℓ} : {A : Type ℓ} → String → A → List (String × A) → List (String × A)
put_workload key wl [] = (key, wl) ∷ []
put_workload key wl ((k, w) ∷ ws) =
    if k == key then (key, wl) ∷ ws else (k, w) ∷ put_workload key wl ws

abbrev pub key_of : Workload → String
key_of wl = workload_key (object_meta wl).namespace (object_meta wl).name

unfoldable pub put_rollouts : List Rollout → List (String × Workload) → List (String × Workload)
put_rollouts [] ws = ws
put_rollouts (ro ∷ ros) ws = put_rollouts ros (put_workload (key_of (rollout ro)) (rollout ro) ws)

unfoldable pub put_deployments :
    List Deployment → List (String × Workload) → List (String × Workload)
put_deployments [] ws = ws
put_deployments (d ∷ ds) ws =
    put_deployments ds (put_workload (key_of (deployment d)) (deployment d) ws)

-- errors.Join of what the loop has gathered
abbrev pub add_error : Option Error → Result Outcome → Option Error
add_error errs (ok _) = errs
add_error none (err e) = some e
add_error (some es) (err e) = some (joined es e)

abbrev pub joined_result : Option Error → Exec Outcome
joined_result none = pure finished
joined_result (some e) = fail e

module _ (r : NodeReconciler) where
  unfoldable pub find_workloads_with_drain_node : String → Exec (List (String × Workload))
  find_workloads_with_drain_node node_name = do
    ros ← within "list rollouts" (ask (λ n. r.client.list_draining_rollouts n node_name))
    ds ← within "list deployments" (ask (λ n. r.client.list_draining_deployments n node_name))
    pure (put_deployments ds (put_rollouts ros []))

  unfoldable pub abort_all : List (String × Workload) → Option Error → Exec Outcome
  abort_all [] errs = joined_result errs
  abort_all ((key, wl) ∷ ws) errs = do
    result ← attempt (abort_workload r wl)
    abort_all ws (add_error errs result)

  -- `range_order` is the order in which Go ranges over a map, which it does not specify.
  unfoldable pub abort_workloads_for_node :
      (List (String × Workload) → List (String × Workload)) → String → Exec Outcome
  abort_workloads_for_node range_order node_name = do
    ws ← find_workloads_with_drain_node node_name
    abort_all (range_order ws) none
