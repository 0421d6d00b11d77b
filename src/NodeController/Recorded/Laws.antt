-- ===== src/NodeController/Recorded/Laws.antt =====
-- What a drain records of itself, under the edits of the node reconciler.
use k8s_drain_surge.Base.{String, ◌≡◌, ◌≢◌, refl, arith}
use k8s_drain_surge.Base.Int.{pos, int32}
use k8s_drain_surge.Base.Maps.{GoMap, get, insert}
use k8s_drain_surge.Errors.{ok}
use k8s_drain_surge.Strconv.{atoi}
use k8s_drain_surge.State.{
  annotation_drain_state, annotation_drain_node, annotation_original_replicas, drain_state,
  DrainState, get_original_replicas, clear_drain_annotations, annotation_hpa_name,
  annotation_hpa_original_min_replicas,
}
use k8s_drain_surge.State.Clearing.{drain_state-text}
use k8s_drain_surge.NodeController.Recorded.{IsKnown, Bookkeeping, begun}

-- A drain that is recorded in the annotations has a state that the controller writes, the node that
-- it is for, and an original replica count of 1.
pub record IsRecorded (m : GoMap String) : Type 0 where
  pub known : IsKnown (drain_state (get m annotation_drain_state))
  pub node :
      drain_state (get m annotation_drain_state) ≢ DrainState.none
      → get m annotation_drain_node ≢ ""
  pub replicas :
      drain_state (get m annotation_drain_state) ≢ DrainState.none
      → get_original_replicas m ≡ ok (pos 1)

pub drain_state-IsKnown :
    IsKnown (drain_state "scaled-up")
    × IsKnown (drain_state "ready")
    × IsKnown (drain_state "draining")
    × IsKnown (drain_state "done")
unfolding drain_state
drain_state-IsKnown = (tt, tt, tt, tt)

pub original_one :
    (m : GoMap String)
    → get m annotation_original_replicas ≡ "1"
    → get_original_replicas m ≡ ok (pos 1)
unfolding get_original_replicas atoi int32
original_one m h = rw h refl

cleared-IsRecorded : (m : GoMap String) → IsRecorded (clear_drain_annotations m)
unfolding clear_drain_annotations
cleared-IsRecorded m = ground (arith, drain_state-text)

-- A later state may be written over an earlier one.
restated-IsRecorded :
    (t : String) (m : GoMap String)
    → IsRecorded m
    → drain_state (get m annotation_drain_state) ≢ DrainState.none
    → IsKnown (drain_state t)
    → IsRecorded (insert annotation_drain_state t m)
unfolding get_original_replicas
restated-IsRecorded t m h active known = ground (arith, h)

begun-IsRecorded :
    (start node_name : String) (m : GoMap String)
    → node_name ≢ ""
    → IsRecorded (begun start node_name m)
begun-IsRecorded start node_name m named = record {
  known = drain_state-IsKnown.0;
  node = λ _. named;
  replicas = λ _. original_one _ refl;
}

managed-IsRecorded :
    (v u : String) (m : GoMap String)
    → IsRecorded m
    → IsRecorded (insert annotation_hpa_original_min_replicas u (insert annotation_hpa_name v m))
unfolding get_original_replicas
managed-IsRecorded v u m h = ground (arith, h)

pub IsRecorded-Bookkeeping : Bookkeeping IsRecorded
IsRecorded-Bookkeeping = record {
  clears = cleared-IsRecorded;
  restates = restated-IsRecorded;
  begins = λ start node_name m h named. begun-IsRecorded start node_name m named;
  manages = managed-IsRecorded;
}
