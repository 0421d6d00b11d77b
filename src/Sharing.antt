-- ===== src/Sharing.antt =====
-- The node reconciler and the rollout reconciler on one Rollout: the annotations that they share.
pub mod Surges
pub mod Reconcile
pub mod Runs
pub mod Refinement
pub mod Overdue
use k8s_drain_surge.Base.{String, ◌≡◌, ◌≢◌, ◌⊎◌, inl, inr, refl, arith}
use k8s_drain_surge.Base.Int.{pos}
use k8s_drain_surge.Base.Maps.{GoMap, get, insert}
use k8s_drain_surge.Errors.{ok}
use k8s_drain_surge.State.{
  DrainState, drain_state, annotation_drain_state, annotation_drain_node,
  annotation_original_replicas, annotation_hpa_name, annotation_hpa_original_min_replicas,
  annotation_restart_surge_state, annotation_restart_surge_start, get_original_replicas,
  clear_drain_annotations, clear_restart_surge_annotations, erase_all, restart_surge_full_keys,
  restart_surge_exclusive_keys,
}
use k8s_drain_surge.State.Clearing.{drain_state-text}
use k8s_drain_surge.NodeController.Recorded.{IsKnown, Bookkeeping, begun}
use k8s_drain_surge.NodeController.Recorded.Laws.{drain_state-IsKnown, original_one}
use k8s_drain_surge.NodeController.Reachable.{AgreeOnOwned}

-- Both states are ones that the controller writes, a drain names its node, the original replica
-- count is 1 wherever it is recorded, and a restart-surge has it recorded.
pub record IsShared (m : GoMap String) : Type 0 where
  pub drain_known : IsKnown (drain_state (get m annotation_drain_state))
  pub surge_known : IsKnown (drain_state (get m annotation_restart_surge_state))
  pub node :
      drain_state (get m annotation_drain_state) ≢ DrainState.none
      → get m annotation_drain_node ≢ ""
  pub original : (get m annotation_original_replicas ≡ "") ⊎ (get_original_replicas m ≡ ok (pos 1))
  pub surging :
      drain_state (get m annotation_restart_surge_state) ≢ DrainState.none
      → get_original_replicas m ≡ ok (pos 1)

pub IsShared-AgreeOnOwned : (m n : GoMap String) → AgreeOnOwned m n → IsShared m → IsShared n
unfolding get_original_replicas
IsShared-AgreeOnOwned m n same h = ground (
  arith,
  h,
  same annotation_drain_state refl,
  same annotation_drain_node refl,
  same annotation_original_replicas refl,
  same annotation_restart_surge_state refl,
)

cleared-IsShared : (m : GoMap String) → IsShared (clear_drain_annotations m)
unfolding clear_drain_annotations
cleared-IsShared m = ground (arith, drain_state-text)

restated-IsShared :
    (t : String) (m : GoMap String)
    → IsShared m
    → drain_state (get m annotation_drain_state) ≢ DrainState.none
    → IsKnown (drain_state t)
    → IsShared (insert annotation_drain_state t m)
unfolding get_original_replicas
restated-IsShared t m h active known = ground (arith, h)

begun-IsShared :
    (start node_name : String) (m : GoMap String)
    → IsShared m
    → node_name ≢ ""
    → IsShared (begun start node_name m)
begun-IsShared start node_name m h named = record {
  drain_known = drain_state-IsKnown.0;
  surge_known = h.surge_known;
  node = λ _. named;
  original = inr (original_one _ refl);
  surging = λ _. original_one _ refl;
}

managed-IsShared :
    (v u : String) (m : GoMap String)
    → IsShared m
    → IsShared (insert annotation_hpa_original_min_replicas u (insert annotation_hpa_name v m))
unfolding get_original_replicas
managed-IsShared v u m h = ground (arith, h)

-- The edits of the node reconciler keep it.
pub IsShared-Bookkeeping : Bookkeeping IsShared
IsShared-Bookkeeping = record {
  clears = cleared-IsShared;
  restates = restated-IsShared;
  begins = begun-IsShared;
  manages = managed-IsShared;
}

-- The annotations of a restart-surge that begins.
abbrev pub surge_begun : String → GoMap String → GoMap String
surge_begun start m =
    insert annotation_restart_surge_start start (
      insert annotation_original_replicas "1" (insert annotation_restart_surge_state "scaled-up" m))

pub surge_begun-IsShared :
    (start : String) (m : GoMap String) → IsShared m → IsShared (surge_begun start m)
surge_begun-IsShared start m h = record {
  drain_known = h.drain_known;
  surge_known = drain_state-IsKnown.0;
  node = h.node;
  original = inr (original_one _ refl);
  surging = λ _. original_one _ refl;
}

pub surge_restated-IsShared :
    (t : String) (m : GoMap String)
    → IsShared m
    → drain_state (get m annotation_restart_surge_state) ≢ DrainState.none
    → IsKnown (drain_state t)
    → IsShared (insert annotation_restart_surge_state t m)
unfolding get_original_replicas
surge_restated-IsShared t m h active known = ground (arith, h)

-- The end of a restart-surge, and its yield to a drain.
pub surge_cleared-IsShared :
    (m : GoMap String) → IsShared m → IsShared (erase_all restart_surge_full_keys m)
unfolding get_original_replicas
surge_cleared-IsShared m h = ground (arith, h, drain_state-text)

pub yielded-IsShared :
    (m : GoMap String) → IsShared m → IsShared (erase_all restart_surge_exclusive_keys m)
unfolding get_original_replicas
yielded-IsShared m h = ground (arith, h, drain_state-text)
