-- ===== src/Workload.antt =====
-- internal/controller/workload.go: the interface over Rollouts and Deployments, and the patch.
pub mod Patching
use k8s_drain_surge.Base.{
  ℕ, String, Bool, true, false, ◌&&◌, ◌||◌, Option, none, some, List, [], ◌∷◌, ◌==◌, not,
  if◌then◌else◌,
}
use k8s_drain_surge.Base.Int.{ℤ, pos, eqb_ℤ}
use k8s_drain_surge.Base.Maps.{GoMap}
use k8s_drain_surge.State.{drain_annotation_keys, mem_key, reason_new_rs_available}
use k8s_drain_surge.Kube.{
  Api, ObjectMeta, Rollout, Deployment, Condition, LabelSelector, Selector, nothing, ObjectRef,
  Write, workload_patch,
}
use k8s_drain_surge.Session.{Exec, send}

-- DrainableWorkload, by its two implementations RolloutWorkload and DeploymentWorkload.
pub data Workload : Type 0 where
  rollout : Rollout → Workload
  deployment : Deployment → Workload

abbrev pub replicas_or_one : Option ℤ → ℤ
replicas_or_one none = pos 1
replicas_or_one (some n) = n

-- GetReplicas, of both implementations and of the interface; so for the other methods.
abbrev pub get_rollout_replicas : Rollout → ℤ
get_rollout_replicas ro = replicas_or_one ro.replicas

abbrev pub get_deployment_replicas : Deployment → ℤ
get_deployment_replicas d = replicas_or_one d.replicas

abbrev pub get_replicas : Workload → ℤ
get_replicas (rollout ro) = get_rollout_replicas ro
get_replicas (deployment d) = get_deployment_replicas d

-- SetReplicas
abbrev pub set_rollout_replicas : ℤ → Rollout → Rollout
set_rollout_replicas n ro = record ro { replicas = some n }

abbrev pub set_deployment_replicas : ℤ → Deployment → Deployment
set_deployment_replicas n d = record d { replicas = some n }

abbrev pub set_replicas : ℤ → Workload → Workload
set_replicas n (rollout ro) = rollout (set_rollout_replicas n ro)
set_replicas n (deployment d) = deployment (set_deployment_replicas n d)

abbrev pub spec_replicas : Workload → Option ℤ
spec_replicas (rollout ro) = ro.replicas
spec_replicas (deployment d) = d.replicas

-- GetObjectMeta; the pointer is read by `object_meta` and written by `set_annotations`.
abbrev pub object_meta : Workload → ObjectMeta
object_meta (rollout ro) = ro.object_meta
object_meta (deployment d) = d.object_meta

abbrev pub annotations : Workload → GoMap String
annotations wl = (object_meta wl).annotations

abbrev pub set_annotations : GoMap String → Workload → Workload
set_annotations m (rollout ro) =
    rollout (record ro { object_meta = record ro.object_meta { annotations = m } })
set_annotations m (deployment d) =
    deployment (record d { object_meta = record d.object_meta { annotations = m } })

-- GetObjectKind
abbrev pub get_object_kind : Workload → String
get_object_kind (rollout ro) = "Rollout"
get_object_kind (deployment d) = "Deployment"

abbrev pub object_ref : Workload → ObjectRef
object_ref wl = record {
  kind = get_object_kind wl;
  namespace = (object_meta wl).namespace;
  name = (object_meta wl).name;
}

-- The loop of DeploymentWorkload.IsStable.
unfoldable pub progressed : List Condition → Bool
progressed [] = false
progressed (cond ∷ conds) =
    (cond.cond_type == "Progressing" && cond.reason == reason_new_rs_available) || progressed conds

-- IsStable
abbrev pub is_rollout_stable : Rollout → Bool
is_rollout_stable ro = ro.phase == "Healthy"

unfoldable pub is_stable : Workload → Bool
is_stable (rollout ro) = is_rollout_stable ro
is_stable (deployment d) =
    progressed d.conditions || eqb_ℤ d.observed_generation d.object_meta.generation

abbrev pub argo_restarting_message : String
argo_restarting_message = "rollout is restarting"

-- (*RolloutWorkload).IsStableForRestart
unfoldable pub is_stable_for_restart : Rollout → Bool
is_stable_for_restart ro =
    if ro.phase == "Healthy"
    then true
    else ro.phase == "Progressing" && ro.message == argo_restarting_message

-- CanSurge
abbrev pub can_rollout_surge : Rollout → Bool
can_rollout_surge ro = true

abbrev pub can_deployment_surge : Deployment → Bool
can_deployment_surge d = not (d.strategy_type == "Recreate")

unfoldable pub can_surge : Workload → Bool
can_surge (rollout ro) = can_rollout_surge ro
can_surge (deployment d) = can_deployment_surge d

abbrev selector_or_nothing : Option Selector → Selector
selector_or_nothing none = nothing
selector_or_nothing (some sel) = sel

unfoldable pub selector_from_label_selector : Api → Option LabelSelector → Selector
selector_from_label_selector c none = nothing
selector_from_label_selector c (some ls) = selector_or_nothing (c.label_selector_as_selector ls)

-- GetPodSelector
abbrev pub get_rollout_pod_selector : Api → Rollout → Selector
get_rollout_pod_selector c ro = selector_from_label_selector c ro.selector

abbrev pub get_deployment_pod_selector : Api → Deployment → Selector
get_deployment_pod_selector c d = selector_from_label_selector c d.selector

unfoldable pub get_pod_selector : Api → Workload → Selector
get_pod_selector c (rollout ro) = get_rollout_pod_selector c ro
get_pod_selector c (deployment d) = get_deployment_pod_selector c d

-- The map annoPatch: a key of the annotations with its value, a missing key that the controller
-- owns with null, and no other key.
unfoldable pub annotation_patch : GoMap String → GoMap (Option String)
annotation_patch m k = elim (m k) [
  | some v ↦ some (some v)
  | none ↦ if mem_key drain_annotation_keys k then some none else none
]

unfoldable pub patch_replicas_and_annotations :
    Api → ObjectRef → Option ℤ → GoMap String → Exec (Unit {0})
patch_replicas_and_annotations c ref replicas m =
    send c (workload_patch ref replicas (annotation_patch m))

-- wl.Patch
unfoldable pub patch : Api → Workload → Exec (Unit {0})
patch c wl = patch_replicas_and_annotations c (object_ref wl) (spec_replicas wl) (annotations wl)
