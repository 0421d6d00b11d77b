-- ===== src/NodeController/Colliding.antt =====
-- What abortWorkloadsForNode misses: a Rollout that shares its namespace and name with a Deployment.
use k8s_drain_surge.Base.{ℕ, suc, String, ◌≡◌, refl, ap, ◌∙◌, Option, some, none, List, [], ◌∷◌}
use text.Mathlib.TextPositions.{eq_refl}
use k8s_drain_surge.Base.Int.{ℤ}
use k8s_drain_surge.Base.Maps.{GoMap}
use k8s_drain_surge.Errors.{Result, ok, err}
use k8s_drain_surge.State.{workload_key, get_original_replicas}
use k8s_drain_surge.Kube.{Api, Write, workload_patch, hpa_patch, Rollout, Deployment}
use k8s_drain_surge.Session.{Effect, applied, refused, event, Session, ◌>>=◌, bind_ok}
use k8s_drain_surge.Session.Keeps.{Keeps, Keeps-send, Keeps-fail, Writes, keeps_rules}
use k8s_drain_surge.Workload.{
  Workload, rollout, deployment, object_ref, annotations, set_annotations, patch,
  patch_replicas_and_annotations,
}
use k8s_drain_surge.Workload.Patching.{MergePatch, Stored, stored, apply_effect}
use k8s_drain_surge.Scaler.{patch_hpa_min_replicas}
use k8s_drain_surge.NodeController.Every.{aborted_in_turn, abort_all-history}
use k8s_drain_surge.NodeController.Abort.{
  NodeReconciler, abort_workload, aborted, replicas_restored, restore_hpa, restore_min,
  put_workload, put_rollouts, put_deployments, find_workloads_with_drain_node,
  abort_workloads_for_node,
}

-- The patch is not of a Rollout.
abbrev SparesRollouts : Write → Type 0
SparesRollouts (workload_patch ref replicas p) = ref.kind ≡ "Deployment"
SparesRollouts (hpa_patch namespace name n) = Unit

stored-spared :
    (mp : MergePatch) (ro : Rollout) (st : Stored) (es : List Effect)
    → Writes SparesRollouts es
    → stored mp (object_ref (rollout ro)) st es ≡ st
unfolding stored apply_effect
stored-spared mp ro st [] w = refl
stored-spared mp ro st (applied (workload_patch target n p) ∷ es) w =
    rw (w.0) (stored-spared mp ro st es w.1)
stored-spared mp ro st (applied (hpa_patch namespace name n) ∷ es) w = stored-spared mp ro st es w.1
stored-spared mp ro st (refused x ∷ es) w = stored-spared mp ro st es w.1
stored-spared mp ro st (event _ _ _ ∷ es) w = stored-spared mp ro st es w

restore_min-spares :
    (c : Api) (namespace name : String) (n : Option ℤ)
    → Keeps SparesRollouts (restore_min c namespace name n)
unfolding restore_min patch_hpa_min_replicas
restore_min-spares c namespace name none = Keeps-fail _
restore_min-spares c namespace name (some n) = Keeps-send c _ tt

restore_hpa-spares :
    (c : Api) (namespace : String) (m : GoMap String)
    → Keeps SparesRollouts (restore_hpa c namespace m)
unfolding restore_hpa
restore_hpa-spares c namespace m = search (keeps_rules, restore_min-spares)

restored-kind :
    (d : Deployment) (original : Result ℤ) (m : GoMap String)
    → (object_ref (set_annotations m (replicas_restored original (deployment d)))).kind
      ≡ "Deployment"
restored-kind d (ok n) m = refl
restored-kind d (err e) m = refl

aborted-kind : (d : Deployment) → (object_ref (aborted (deployment d))).kind ≡ "Deployment"
unfolding aborted
aborted-kind d = restored-kind d (get_original_replicas (annotations (deployment d))) _

patch-spares : (c : Api) (d : Deployment) → Keeps SparesRollouts (patch c (aborted (deployment d)))
unfolding patch patch_replicas_and_annotations
patch-spares c d = Keeps-send c _ (aborted-kind d)

abort_workload-spares :
    (r : NodeReconciler) (d : Deployment) → Keeps SparesRollouts (abort_workload r (deployment d))
unfolding abort_workload
abort_workload-spares r d = search (keeps_rules, restore_hpa-spares, patch-spares)

-- They share a key, and the Deployment is put into the map last.
put_deployments-drops :
    (ro : Rollout) (d : Deployment)
    → ro.object_meta.namespace ≡ d.object_meta.namespace
    → ro.object_meta.name ≡ d.object_meta.name
    → put_deployments (d ∷ []) (put_rollouts (ro ∷ []) [])
      ≡ (workload_key d.object_meta.namespace d.object_meta.name, deployment d) ∷ []
unfolding put_deployments put_rollouts put_workload
put_deployments-drops ro d spaces names =
    rw (spaces, names, eq_refl (workload_key d.object_meta.namespace d.object_meta.name)) refl

found_one :
    (r : NodeReconciler) (ro : Rollout) (d : Deployment) (name : String) (calls : ℕ)
    → r.client.list_draining_rollouts calls name ≡ ok (ro ∷ [])
    → r.client.list_draining_deployments (suc calls) name ≡ ok (d ∷ [])
    → find_workloads_with_drain_node r name (record { calls = calls; history = [] }) ≡ (
      ok (put_deployments (d ∷ []) (put_rollouts (ro ∷ []) [])),
      record { calls = suc (suc calls); history = [] },
    )
unfolding find_workloads_with_drain_node ◌>>=◌
found_one r ro d name calls ros ds = rw (ros, ds) refl

aborts_ws :
    (r : NodeReconciler) (range_order : List (String × Workload) → List (String × Workload))
    (name : String) (s s' : Session) (ws : List (String × Workload))
    → find_workloads_with_drain_node r name s ≡ (ok ws, s')
    → (abort_workloads_for_node r range_order name s).1 ≡ aborted_in_turn r (range_order ws) s'
unfolding abort_workloads_for_node
aborts_ws r range_order name s s' ws found =
    ap (λ p. p.1) (bind_ok (find_workloads_with_drain_node r name) _ found)
    ∙ abort_all-history r (range_order ws) none s'

only_deployment :
    (r : NodeReconciler) (range_order : List (String × Workload) → List (String × Workload))
    (ro : Rollout) (d : Deployment) (name : String) (calls : ℕ)
    → ((p : String × Workload) → range_order (p ∷ []) ≡ p ∷ [])
    → r.client.list_draining_rollouts calls name ≡ ok (ro ∷ [])
    → r.client.list_draining_deployments (suc calls) name ≡ ok (d ∷ [])
    → ro.object_meta.namespace ≡ d.object_meta.namespace
    → ro.object_meta.name ≡ d.object_meta.name
    → (abort_workloads_for_node r range_order name
        (record { calls = calls; history = [] })).1.history
      ≡ (abort_workload r
          (deployment d)
          (record { calls = suc (suc calls); history = [] })).1.history
only_deployment r range_order ro d name calls single ros ds spaces names =
    let key = workload_key d.object_meta.namespace d.object_meta.name in
    let start : Session = record { calls = calls; history = [] } in
    let found = found_one r ro d name calls ros ds in
    let one = rw (put_deployments-drops ro d spaces names) at found in
    ap (λ s. s.history) (aborts_ws r range_order name start _ _ one)
    ∙ ap (λ ws. (aborted_in_turn r ws (record { calls = suc (suc calls); history = [] })).history)
        (single (key, deployment d))

-- Where the index has one Rollout and one Deployment for a node, of the same namespace and name,
-- abortWorkloadsForNode runs abortWorkload for the Deployment only, and leaves the Rollout in the
-- server as it is. The order in which Go ranges over a map of one entry is that entry.
pub abort_workloads_for_node-misses :
    (mp : MergePatch) (r : NodeReconciler)
    (range_order : List (String × Workload) → List (String × Workload)) (ro : Rollout)
    (d : Deployment) (name : String) (calls : ℕ) (st : Stored)
    → ((p : String × Workload) → range_order (p ∷ []) ≡ p ∷ [])
    → r.client.list_draining_rollouts calls name ≡ ok (ro ∷ [])
    → r.client.list_draining_deployments (suc calls) name ≡ ok (d ∷ [])
    → ro.object_meta.namespace ≡ d.object_meta.namespace
    → ro.object_meta.name ≡ d.object_meta.name
    → let history =
        (abort_workloads_for_node r range_order name
          (record { calls = calls; history = [] })).1.history in
      (history
        ≡ (abort_workload r
            (deployment d)
            (record { calls = suc (suc calls); history = [] })).1.history)
      × (stored mp (object_ref (rollout ro)) st history ≡ st)
abort_workloads_for_node-misses mp r range_order ro d name calls st single ros ds spaces names =
    let run = only_deployment r range_order ro d name calls single ros ds spaces names in
    (
      run,
      rw run (
          stored-spared mp ro st _
            ((abort_workload-spares r d).at (record { calls = suc (suc calls); history = [] }) tt)),
    )
