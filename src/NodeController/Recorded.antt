-- ===== src/NodeController/Recorded.antt =====
-- The bookkeeping of a drain: what reconcileWorkload keeps of the annotations that it works on. The
-- interface of a property of annotations that it keeps, and the actions that every handler is made
-- of; the children have the handlers and the properties.
pub mod Handlers
pub mod Start
pub mod Reconcile
pub mod Laws
use k8s_drain_surge.Base.{String, ◌≡◌, ◌≢◌, refl, Option, none, some, arith, fun_ext, if◌then◌else◌}
use k8s_drain_surge.Base.Int.{ℤ, int32}
use k8s_drain_surge.Base.Maps.{GoMap, get, insert}
use k8s_drain_surge.Errors.{ok, err}
use k8s_drain_surge.State.{
  annotation_drain_state, annotation_drain_node, annotation_drain_start, annotation_hpa_name,
  annotation_hpa_original_min_replicas, annotation_original_replicas, drain_state, DrainState,
  get_original_replicas, clear_drain_annotations,
}
use k8s_drain_surge.Session.{Exec}
use k8s_drain_surge.Session.Keeps.{Keeps, Keeps-send, Keeps-fail, Keeps-result, keeps_rules}
use k8s_drain_surge.Workload.{
  Workload, annotations, rollout, deployment, annotation_patch, set_replicas, patch,
  patch_replicas_and_annotations, spec_replicas,
}
use k8s_drain_surge.Scaler.{patch_hpa_min_replicas}
use k8s_drain_surge.Kube.{Api, Write, workload_patch, hpa_patch}
use k8s_drain_surge.Workload.Patching.{patched, Covers, annotation_patch-Covers}
use k8s_drain_surge.NodeController.Abort.{
  NodeReconciler, Outcome, abort_workload, aborted, restore_hpa, restore_min,
}
use k8s_drain_surge.NodeController.Handlers.{annotate, with_original}
use k8s_drain_surge.NodeController.Undo.{annotations-aborted}
use k8s_drain_surge.NodeController.Reconcile.{state_of}

abbrev pub IsKnown : DrainState → Type 0
IsKnown DrainState.pending = ⊥
IsKnown (DrainState.other _) = ⊥
IsKnown _ = Unit

-- The annotations of a drain that begins.
abbrev pub begun : String → String → GoMap String → GoMap String
begun start node_name m = insert annotation_drain_start start (
    insert annotation_drain_node node_name
      (insert annotation_original_replicas "1" (insert annotation_drain_state "scaled-up" m)))

-- A property of annotations that the edits of the node reconciler keep: giving a drain up, going on
-- to a later state, beginning a drain, and recording an HPA.
pub record Bookkeeping (R : GoMap String → Type 0) : Type 0 where
  pub clears : (m : GoMap String) → R (clear_drain_annotations m)
  pub restates :
      (t : String) (m : GoMap String)
      → R m
      → drain_state (get m annotation_drain_state) ≢ DrainState.none
      → IsKnown (drain_state t)
      → R (insert annotation_drain_state t m)
  pub begins :
      (start node_name : String) (m : GoMap String)
      → R m
      → node_name ≢ ""
      → R (begun start node_name m)
  pub manages :
      (v u : String) (m : GoMap String)
      → R m
      → R (insert annotation_hpa_original_min_replicas u (insert annotation_hpa_name v m))

pub record IsFine (R : GoMap String → Type 0) (p : GoMap (Option String)) : Type 0 where
  pub covers : Covers p
  pub recorded : R (patched p)

-- The patch of annotations says what they are.
pub patched-annotation_patch : (m : GoMap String) → patched (annotation_patch m) ≡ m
unfolding annotation_patch
patched-annotation_patch m = fun_ext λ k. ground arith

-- A workload patch keeps the property; the patch of an HPA carries no annotations.
abbrev pub Fine : (GoMap String → Type 0) → Write → Type 0
Fine R (workload_patch ref replicas p) = IsFine R p
Fine R (hpa_patch namespace name n) = Unit

module _ {R : GoMap String → Type 0} where
  pub patch-Keeps : (c : Api) (wl : Workload) → R (annotations wl) → Keeps (Fine R) (patch c wl)
  unfolding patch patch_replicas_and_annotations
  patch-Keeps c wl h = Keeps-send c _ (record {
    covers = annotation_patch-Covers (annotations wl);
    recorded = rw (patched-annotation_patch (annotations wl)) h;
  })

  pub patch_hpa-Keeps :
      (c : Api) (namespace name : String) (n : ℤ)
      → Keeps (Fine R) (patch_hpa_min_replicas c namespace name n)
  unfolding patch_hpa_min_replicas
  patch_hpa-Keeps c namespace name n = Keeps-send c _ tt

  pub restore_min-Keeps :
      (c : Api) (namespace name : String) (n : Option ℤ)
      → Keeps (Fine R) (restore_min c namespace name n)
  unfolding restore_min
  restore_min-Keeps c namespace name none = Keeps-fail _
  restore_min-Keeps c namespace name (some n) = patch_hpa-Keeps c namespace name (int32 n)

  pub restore_hpa-Keeps :
      (c : Api) (namespace : String) (m : GoMap String) → Keeps (Fine R) (restore_hpa c namespace m)
  unfolding restore_hpa
  restore_hpa-Keeps c namespace m = search (keeps_rules, restore_min-Keeps)

  aborted-kept : Bookkeeping R → (wl : Workload) → R (annotations (aborted wl))
  aborted-kept b wl = rw annotations-aborted (b.clears (annotations wl))

  pub abort_workload-Keeps :
      Bookkeeping R → (r : NodeReconciler) (wl : Workload) → Keeps (Fine R) (abort_workload r wl)
  unfolding abort_workload
  abort_workload-Keeps b r wl = search (keeps_rules, restore_hpa-Keeps, patch-Keeps, aborted-kept)

pub annotations-set_replicas :
    (n : ℤ) (wl : Workload) → annotations (set_replicas n wl) ≡ annotations wl
annotations-set_replicas n (rollout ro) = refl
annotations-set_replicas n (deployment d) = refl

pub annotations-annotate :
    (k v : String) (wl : Workload) → annotations (annotate k v wl) ≡ insert k v (annotations wl)
annotations-annotate k v (rollout ro) = refl
annotations-annotate k v (deployment d) = refl

module _ {R : GoMap String → Type 0} (b : Bookkeeping R) where
  pub annotate-kept :
      (t : String) (wl : Workload)
      → R (annotations wl)
      → state_of wl ≢ DrainState.none
      → IsKnown (drain_state t)
      → R (annotations (annotate annotation_drain_state t wl))
  annotate-kept t wl h active known =
      rw annotations-annotate (b.restates t (annotations wl) h active known)

  -- Setting the replicas first changes no annotation.
  pub rescaled-kept :
      (n : ℤ) (t : String) (wl : Workload)
      → R (annotations wl)
      → state_of wl ≢ DrainState.none
      → IsKnown (drain_state t)
      → R (annotations (annotate annotation_drain_state t (set_replicas n wl)))
  rescaled-kept n t wl h active known =
      rw (annotations-annotate, annotations-set_replicas)
        (b.restates t (annotations wl) h active known)

  -- A handler that needs the original count keeps what its rest keeps, since it aborts otherwise.
  pub with_original-Keeps :
      (r : NodeReconciler) (wl : Workload) (rest : ℤ → Exec Outcome)
      → ((n : ℤ) → Keeps (Fine R) (rest n))
      → Keeps (Fine R) (with_original r wl rest)
  with_original-Keeps r wl rest k =
      Keeps-result (get_original_replicas (annotations wl)) rest (abort_workload r wl)
        (abort_workload-Keeps b r wl) k

-- With `abort_workload-Keeps` and the lemmas on kept annotations at the property's laws.
pub ruleset recorded_rules = (keeps_rules, patch-Keeps, restore_hpa-Keeps)
