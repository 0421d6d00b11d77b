-- ===== src/NodeController/Lifecycle.antt =====
-- The life of a drain as an abstract machine over its state and the workload's replica count, and
-- the moves of it that the patches of reconcileWorkload make; the children have the handlers.
pub mod Handlers
pub mod Start
pub mod Reconcile
pub mod Refinement
use k8s_drain_surge.Base.{
  String, ◌≡◌, ◌≢◌, ◌⊎◌, inl, inr, refl, sym, Bool, true, false, not, Option, none, some, arith,
  eq_iff, ◌==◌, if◌then◌else◌,
}
use k8s_drain_surge.Base.Int.{ℤ, pos, ◌+ℤ◌, int32, wrap}
use k8s_drain_surge.Base.Maps.{GoMap, get}
use k8s_drain_surge.Errors.{Result, ok, err}
use k8s_drain_surge.State.{
  DrainState, drain_state, text, annotation_drain_state, annotation_hpa_name, get_original_replicas,
  clear_drain_annotations,
}
use k8s_drain_surge.Kube.{Api, ObjectRef, Write, workload_patch, hpa_patch}
use k8s_drain_surge.Session.{Exec}
use k8s_drain_surge.Session.Keeps.{Keeps, Keeps-send, Keeps-fail, Keeps-if, keeps_rules}
use k8s_drain_surge.Workload.{
  Workload, rollout, deployment, annotations, annotation_patch, get_replicas, spec_replicas,
  replicas_or_one, object_ref, set_replicas, patch, patch_replicas_and_annotations,
}
use k8s_drain_surge.Workload.Patching.{patched, Covers, annotation_patch-Covers}
use k8s_drain_surge.Scaler.{patch_hpa_min_replicas}
use k8s_drain_surge.NodeController.Abort.{
  NodeReconciler, Outcome, restore_hpa, restore_min, aborted, abort_workload,
}
use k8s_drain_surge.State.Clearing.{drain_state-text}
use k8s_drain_surge.NodeController.Undo.{
  object_ref-aborted, annotations-aborted, spec_replicas-aborted,
}
use k8s_drain_surge.NodeController.Handlers.{with_original, surge_target}
use k8s_drain_surge.NodeController.Reconcile.{state_of}

-- An HPA is recorded in the annotations.
abbrev pub is_managed : GoMap String → Bool
is_managed m = not (get m annotation_hpa_name == "")

-- The specification: from a state with `n` replicas the controller may move to another state, and
-- set `m` replicas with it. A drain starts on a single replica and adds at most one. While it waits,
-- it may set the two replicas again. Once the pod has left the node, it goes back to one, unless an
-- HPA does that. An abort goes back to one from any state. Every other move is forbidden.
abbrev pub Follows : (managed : Bool) → DrainState → ℤ → DrainState → ℤ → Type 0
Follows managed DrainState.none n DrainState.scaled_up m = (n ≡ pos 1) × ((m ≡ pos 2) ⊎ (m ≡ pos 1))
Follows managed DrainState.scaled_up n DrainState.scaled_up m = m ≡ pos 2
Follows managed DrainState.scaled_up n DrainState.ready m = m ≡ n
Follows managed DrainState.ready n DrainState.draining m = m ≡ (if managed then n else pos 1)
Follows managed DrainState.draining n DrainState.done m = m ≡ (if managed then n else pos 1)
Follows managed DrainState.done n DrainState.none m = m ≡ n
Follows managed DrainState.scaled_up n DrainState.none m = m ≡ pos 1
Follows managed DrainState.ready n DrainState.none m = m ≡ pos 1
Follows managed DrainState.draining n DrainState.none m = m ≡ pos 1
Follows managed _ n _ m = ⊥

-- A workload patch that is a move from `wl`, on the workload itself. An HPA patch moves nothing.
abbrev pub Moves : Workload → Write → Type 0
Moves wl (workload_patch ref replicas p) =
    (ref ≡ object_ref wl)
    × Covers p
    × Follows (is_managed (patched p)) (state_of wl) (get_replicas wl)
        (drain_state (get (patched p) annotation_drain_state)) (replicas_or_one replicas)
Moves wl (hpa_patch namespace name n) = Unit

-- The object `next` is the outcome of a move from `wl`.
pub record IsMove (wl next : Workload) : Type 0 where
  pub same : object_ref next ≡ object_ref wl
  pub follows :
      Follows
        (is_managed (annotations next))
        (state_of wl)
        (get_replicas wl)
        (state_of next)
        (get_replicas next)

patched-annotation_patch_at :
    (m : GoMap String) (k : String) → get (patched (annotation_patch m)) k ≡ get m k
unfolding annotation_patch
patched-annotation_patch_at m k = ground arith

pub replicas-spec : (wl : Workload) → replicas_or_one (spec_replicas wl) ≡ get_replicas wl
replicas-spec (rollout ro) = refl
replicas-spec (deployment d) = refl

pub patch-Moves : (c : Api) (wl next : Workload) → IsMove wl next → Keeps (Moves wl) (patch c next)
unfolding patch patch_replicas_and_annotations
patch-Moves c wl next move = Keeps-send c _ (
  move.same,
  annotation_patch-Covers (annotations next),
  rw
      (
        patched-annotation_patch_at (annotations next) annotation_hpa_name,
        patched-annotation_patch_at (annotations next) annotation_drain_state,
        replicas-spec next,
      )
      move.follows,
)

module _ (wl : Workload) where
  pub patch_hpa-Moves :
      (c : Api) (namespace name : String) (n : ℤ)
      → Keeps (Moves wl) (patch_hpa_min_replicas c namespace name n)
  unfolding patch_hpa_min_replicas
  patch_hpa-Moves c namespace name n = Keeps-send c _ tt

  pub restore_min-Moves :
      (c : Api) (namespace name : String) (n : Option ℤ)
      → Keeps (Moves wl) (restore_min c namespace name n)
  unfolding restore_min
  restore_min-Moves c namespace name none = Keeps-fail _
  restore_min-Moves c namespace name (some n) = patch_hpa-Moves c namespace name (int32 n)

  pub restore_hpa-Moves :
      (c : Api) (namespace : String) (m : GoMap String)
      → Keeps (Moves wl) (restore_hpa c namespace m)
  unfolding restore_hpa
  restore_hpa-Moves c namespace m = search (keeps_rules, restore_min-Moves)

  pub with_original-Moves :
      (r : NodeReconciler) (original : ℤ) (rest : ℤ → Exec Outcome)
      → get_original_replicas (annotations wl) ≡ ok original
      → Keeps (Moves wl) (rest original)
      → Keeps (Moves wl) (with_original r wl rest)
  with_original-Moves r original rest known k = rw (known, with_original) k

pub surge_target-one : surge_target (pos 1) ≡ pos 2
unfolding int32 wrap ◌+ℤ◌
surge_target-one = refl

-- A state from which an abort goes back to one replica.
abbrev pub IsUnderWay : DrainState → Type 0
IsUnderWay DrainState.scaled_up = Unit
IsUnderWay DrainState.ready = Unit
IsUnderWay DrainState.draining = Unit
IsUnderWay _ = ⊥

pub Follows-abort :
    (managed : Bool) (from : DrainState) (n : ℤ)
    → IsUnderWay from
    → Follows managed from n DrainState.none (pos 1)
Follows-abort managed DrainState.scaled_up n u = refl
Follows-abort managed DrainState.ready n u = refl
Follows-abort managed DrainState.draining n u = refl
Follows-abort managed DrainState.none n u = elim u [ ]
Follows-abort managed DrainState.pending n u = elim u [ ]
Follows-abort managed DrainState.done n u = elim u [ ]
Follows-abort managed (DrainState.other t) n u = elim u [ ]

pub state_of-cleared :
    (m : GoMap String)
    → drain_state (get (clear_drain_annotations m) annotation_drain_state) ≡ DrainState.none
unfolding clear_drain_annotations
state_of-cleared m = ground (arith, drain_state-text)

pub aborted-IsMove :
    (wl : Workload)
    → IsUnderWay (state_of wl)
    → get_original_replicas (annotations wl) ≡ ok (pos 1)
    → IsMove wl (aborted wl)
aborted-IsMove wl way known = record {
  same = object_ref-aborted wl;
  follows =
      rw
        (
          annotations-aborted wl,
          state_of-cleared (annotations wl),
          sym (replicas-spec (aborted wl)),
          spec_replicas-aborted wl,
          known,
        )
        (Follows-abort _ (state_of wl) (get_replicas wl) way);
}

pub ruleset moves_rules = (keeps_rules, patch-Moves, restore_hpa-Moves, aborted-IsMove)

pub abort_workload-Moves :
    (r : NodeReconciler) (wl : Workload)
    → IsUnderWay (state_of wl)
    → get_original_replicas (annotations wl) ≡ ok (pos 1)
    → Keeps (Moves wl) (abort_workload r wl)
unfolding abort_workload
abort_workload-Moves r wl way known = search moves_rules
