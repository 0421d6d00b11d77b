-- ===== src/RolloutController/Lifecycle.antt =====
-- The life of a restart-surge as the abstract machine of a drain, with the yield to a drain, and the
-- moves of it that end one; the children have the handlers.
pub mod Handlers
pub mod Start
pub mod Reconcile
use k8s_drain_surge.Base.{
  String, ◌≡◌, ◌⊎◌, inl, inr, refl, sym, Bool, Bool-cases, true, false, Option, none, some, arith,
  eq_iff, ◌==◌, not, if◌then◌else◌,
}
use k8s_drain_surge.Base.Int.{ℤ, pos, int32}
use k8s_drain_surge.Base.Maps.{GoMap, get}
use k8s_drain_surge.Errors.{Result, ok, err}
use k8s_drain_surge.State.{
  DrainState, drain_state, annotation_drain_state, annotation_restart_surge_state,
  annotation_hpa_name, get_original_replicas, erase_all, restart_surge_full_keys,
  restart_surge_exclusive_keys,
}
use k8s_drain_surge.State.Clearing.{drain_state-text}
use k8s_drain_surge.Kube.{Api, Rollout, Write, workload_patch, hpa_patch}
use k8s_drain_surge.Session.Keeps.{Keeps, Keeps-send, Keeps-fail, keeps_rules}
use k8s_drain_surge.Workload.{
  Workload, rollout, annotations, get_replicas, spec_replicas, replicas_or_one, object_ref, patch,
  patch_replicas_and_annotations,
}
use k8s_drain_surge.Workload.Patching.{patched, Covers, annotation_patch-Covers}
use k8s_drain_surge.Scaler.{patch_hpa_min_replicas}
use k8s_drain_surge.NodeController.Abort.{restore_min, replicas_restored}
use k8s_drain_surge.NodeController.Abort
use k8s_drain_surge.NodeController.Undo.{restored_replicas, spec_replicas-replicas_restored}
use k8s_drain_surge.NodeController.Recorded.{patched-annotation_patch}
use k8s_drain_surge.NodeController.Lifecycle.{
  Follows, IsUnderWay, Follows-abort, is_managed, replicas-spec,
}
use k8s_drain_surge.RolloutController.Abort.{
  RolloutReconciler, restart_aborted, yielded, abort_restart_surge, yield_to_drain,
}
use k8s_drain_surge.RolloutController.Reconcile.{restart_state_of, drain_in_progress}
use k8s_drain_surge.RolloutController.Yield.{
  annotations-restart_aborted, annotations-yielded, object_ref-restart_aborted, object_ref-yielded,
}

-- The specification: the machine of a drain, as long as the Rollout is not being drained. While it
-- is, a restart-surge may only end, and leaves the replicas at one or, with an HPA, as they are.
abbrev pub SurgeFollows : (drained managed : Bool) → DrainState → ℤ → DrainState → ℤ → Type 0
SurgeFollows false managed from n to m = Follows managed from n to m
SurgeFollows true managed from n DrainState.none m =
    IsUnderWay from × ((m ≡ pos 1) ⊎ (m ≡ (if managed then n else pos 1)))
SurgeFollows true managed from n _ m = ⊥

-- A workload patch that is a move from `ro`, on the Rollout itself. An HPA patch moves nothing.
abbrev pub SurgeMoves : Rollout → Write → Type 0
SurgeMoves ro (workload_patch ref replicas p) =
    (ref ≡ object_ref (rollout ro))
    × Covers p
    × SurgeFollows (drain_in_progress ro) (is_managed (patched p)) (restart_state_of ro)
        (get_replicas (rollout ro)) (drain_state (get (patched p) annotation_restart_surge_state))
        (replicas_or_one replicas)
SurgeMoves ro (hpa_patch namespace name n) = Unit

-- The object `next` is the outcome of a move from `ro`.
pub record IsSurgeMove (ro : Rollout) (next : Workload) : Type 0 where
  pub same : object_ref next ≡ object_ref (rollout ro)
  pub follows :
      SurgeFollows
        (drain_in_progress ro)
        (is_managed (annotations next))
        (restart_state_of ro)
        (get_replicas (rollout ro))
        (drain_state (get (annotations next) annotation_restart_surge_state))
        (get_replicas next)

pub patch-SurgeMoves :
    (c : Api) (ro : Rollout) (next : Workload)
    → IsSurgeMove ro next
    → Keeps (SurgeMoves ro) (patch c next)
unfolding patch patch_replicas_and_annotations
patch-SurgeMoves c ro next move = Keeps-send c _ (
  move.same,
  annotation_patch-Covers (annotations next),
  rw (patched-annotation_patch (annotations next), replicas-spec next) move.follows,
)

module _ (ro : Rollout) where
  pub patch_hpa-SurgeMoves :
      (c : Api) (namespace name : String) (n : ℤ)
      → Keeps (SurgeMoves ro) (patch_hpa_min_replicas c namespace name n)
  unfolding patch_hpa_min_replicas
  patch_hpa-SurgeMoves c namespace name n = Keeps-send c _ tt

  restore_min-SurgeMoves :
      (c : Api) (namespace name : String) (n : Option ℤ)
      → Keeps (SurgeMoves ro) (restore_min c namespace name n)
  unfolding restore_min
  restore_min-SurgeMoves c namespace name none = Keeps-fail _
  restore_min-SurgeMoves c namespace name (some n) = patch_hpa-SurgeMoves c namespace name (int32 n)

  pub restore_hpa-SurgeMoves :
      (c : Api) (namespace : String) (m : GoMap String)
      → Keeps (SurgeMoves ro) (Abort.restore_hpa c namespace m)
  unfolding Abort.restore_hpa
  restore_hpa-SurgeMoves c namespace m = search (keeps_rules, restore_min-SurgeMoves)

SurgeFollows-abort :
    (drained managed : Bool) (from : DrainState) (n : ℤ)
    → IsUnderWay from
    → SurgeFollows drained managed from n DrainState.none (pos 1)
SurgeFollows-abort false managed from n u = Follows-abort managed from n u
SurgeFollows-abort true managed from n u = (u, inl refl)

pub surge_cleared :
    (m : GoMap String)
    → drain_state (get (erase_all restart_surge_full_keys m) annotation_restart_surge_state)
      ≡ DrainState.none
surge_cleared m = ground (arith, drain_state-text)

surge_yielded :
    (m : GoMap String)
    → drain_state (get (erase_all restart_surge_exclusive_keys m) annotation_restart_surge_state)
      ≡ DrainState.none
surge_yielded m = ground (arith, drain_state-text)

module _ (ro : Rollout) (way : IsUnderWay (restart_state_of ro))
    (known : get_original_replicas (annotations (rollout ro)) ≡ ok (pos 1)) where
  pub replicas-restart_aborted : spec_replicas (restart_aborted (rollout ro)) ≡ some (pos 1)
  unfolding restart_aborted
  replicas-restart_aborted =
      rw
        (spec_replicas-replicas_restored (get_original_replicas (annotations (rollout ro)))
          (rollout ro) _)
        (rw known refl)

  pub aborted-IsSurgeMove : IsSurgeMove ro (restart_aborted (rollout ro))
  aborted-IsSurgeMove = record {
    same = object_ref-restart_aborted ro;
    follows =
        rw
          (
            annotations-restart_aborted ro,
            surge_cleared (annotations (rollout ro)),
            sym (replicas-spec (restart_aborted (rollout ro))),
            replicas-restart_aborted,
          )
          (SurgeFollows-abort _ _ (restart_state_of ro) (get_replicas (rollout ro)) way);
  }

  -- The replicas that yieldToDrain sends.
  replicas-yielded :
      replicas_or_one (spec_replicas (yielded (rollout ro)))
      ≡ (if is_managed (annotations (rollout ro)) then get_replicas (rollout ro) else pos 1)
  unfolding yielded
  replicas-yielded = elim (Bool-cases (get (annotations (rollout ro)) annotation_hpa_name == "")) [
    | inl plain ↦
        rw
          (
            plain,
            spec_replicas-replicas_restored (get_original_replicas (annotations (rollout ro)))
                (rollout ro) _,
            known,
          )
          refl
    | inr managed ↦ rw managed refl
  ]

  pub yielded-IsSurgeMove : drain_in_progress ro ≡ true → IsSurgeMove ro (yielded (rollout ro))
  yielded-IsSurgeMove drained = record {
    same = object_ref-yielded ro;
    follows =
        rw
          (
            drained,
            annotations-yielded ro,
            surge_yielded (annotations (rollout ro)),
            sym (replicas-spec (yielded (rollout ro))),
            replicas-yielded,
          )
          (way, inr refl);
  }
