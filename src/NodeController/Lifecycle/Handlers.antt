-- ===== src/NodeController/Lifecycle/Handlers.antt =====
-- The handlers of a recorded drain and their patches, as moves of the abstract machine.
use k8s_drain_surge.Base.{
  String, ◌≡◌, refl, Bool, true, false, not, arith, ◌==◌, ◌&&◌, if◌then◌else◌,
}
use k8s_drain_surge.Base.Int.{ℤ, pos, eqb_ℤ, eqb_ℤ_iff}
use k8s_drain_surge.Base.Maps.{get}
use k8s_drain_surge.Errors.{ok}
use k8s_drain_surge.State.{
  DrainState, drain_state, text, annotation_drain_state, annotation_hpa_name, get_original_replicas,
  clear_drain_annotations,
}
use k8s_drain_surge.State.Clearing.{drain_state-text}
use k8s_drain_surge.Session.Keeps.{Keeps}
use k8s_drain_surge.Workload.{
  Workload, rollout, deployment, annotations, get_replicas, object_ref, set_replicas,
  set_annotations,
}
use k8s_drain_surge.Scaler.{find_pod_on_node, find_ready_pod_on_other_node}
use k8s_drain_surge.NodeController.Abort.{NodeReconciler}
use k8s_drain_surge.NodeController.Handlers.{
  annotate, surge_target, scaled_down, corrected, await_ready, handle_wait_ready,
  handle_wait_eviction, handle_scale_down, handle_cleanup,
}
use k8s_drain_surge.NodeController.Reconcile.{state_of}
use k8s_drain_surge.NodeController.Lifecycle.{
  IsMove, Moves, Follows, is_managed, moves_rules, with_original-Moves, surge_target-one,
  state_of-cleared,
}

-- Setting the state text `t` on a copy of the workload with `m` replicas.
restated-IsMove :
    (wl copy : Workload) (t : String)
    → object_ref copy ≡ object_ref wl
    → annotations copy ≡ annotations wl
    → Follows
        (is_managed (annotations wl))
        (state_of wl)
        (get_replicas wl)
        (drain_state t)
        (get_replicas copy)
    → IsMove wl (annotate annotation_drain_state t copy)
restated-IsMove wl (rollout ro) t same kept f = record { same = same; follows = rw kept f }
restated-IsMove wl (deployment d) t same kept f = record { same = same; follows = rw kept f }

-- The copy whose replicas are set under a test.
object_ref-resized :
    (b : Bool) (n : ℤ) (wl : Workload)
    → object_ref (if b then set_replicas n wl else wl) ≡ object_ref wl
object_ref-resized true n (rollout ro) = refl
object_ref-resized true n (deployment d) = refl
object_ref-resized false n wl = refl

pub annotations-resized :
    (b : Bool) (n : ℤ) (wl : Workload)
    → annotations (if b then set_replicas n wl else wl) ≡ annotations wl
annotations-resized true n (rollout ro) = refl
annotations-resized true n (deployment d) = refl
annotations-resized false n wl = refl

pub replicas-resized :
    (b : Bool) (n : ℤ) (wl : Workload)
    → get_replicas (if b then set_replicas n wl else wl) ≡ (if b then n else get_replicas wl)
replicas-resized true n (rollout ro) = refl
replicas-resized true n (deployment d) = refl
replicas-resized false n wl = refl

module _ (r : NodeReconciler) (wl : Workload)
    (known : get_original_replicas (annotations wl) ≡ ok (pos 1)) where
  ready-IsMove :
      state_of wl ≡ DrainState.scaled_up
      → IsMove wl (annotate annotation_drain_state (text DrainState.ready) wl)
  ready-IsMove e = restated-IsMove wl wl "ready" refl refl (rw (e, drain_state-text.2) refl)

  drained-IsMove :
      state_of wl ≡ DrainState.ready
      → IsMove wl
          (annotate annotation_drain_state (text DrainState.draining) (scaled_down r wl (pos 1)))
  drained-IsMove e =
      restated-IsMove wl (scaled_down r wl (pos 1)) "draining"
        (object_ref-resized (get (annotations wl) annotation_hpa_name == "") (pos 1) wl)
        (annotations-resized (get (annotations wl) annotation_hpa_name == "") (pos 1) wl)
        (rw
          (
            e,
            drain_state-text.3,
            replicas-resized (get (annotations wl) annotation_hpa_name == "") (pos 1) wl,
          )
          (ground arith))

  abbrev needed : Bool
  needed = (get (annotations wl) annotation_hpa_name == "") && not (eqb_ℤ (get_replicas wl) (pos 1))

  done-IsMove :
      state_of wl ≡ DrainState.draining
      → IsMove wl (annotate annotation_drain_state (text DrainState.done) (corrected r wl (pos 1)))
  done-IsMove e =
      restated-IsMove wl (corrected r wl (pos 1)) "done" (object_ref-resized needed (pos 1) wl)
        (annotations-resized needed (pos 1) wl)
        (rw (e, drain_state-text.4, replicas-resized needed (pos 1) wl)
          (ground (arith, eqb_ℤ_iff (get_replicas wl) (pos 1))))

pub surged-IsMove :
    (wl : Workload)
    → state_of wl ≡ DrainState.scaled_up
    → IsMove wl (set_replicas (surge_target (pos 1)) wl)
surged-IsMove (rollout ro) e = record { same = refl; follows = rw (e, surge_target-one) refl }
surged-IsMove (deployment d) e = record { same = refl; follows = rw (e, surge_target-one) refl }

cleared-IsMove :
    (wl : Workload)
    → state_of wl ≡ DrainState.done
    → IsMove wl (set_annotations (clear_drain_annotations (annotations wl)) wl)
cleared-IsMove (rollout ro) e = record {
  same = refl;
  follows = rw (e, state_of-cleared ro.object_meta.annotations) refl;
}
cleared-IsMove (deployment d) e = record {
  same = refl;
  follows = rw (e, state_of-cleared d.object_meta.annotations) refl;
}

module _ (r : NodeReconciler) (wl : Workload)
    (known : get_original_replicas (annotations wl) ≡ ok (pos 1)) where
  await_ready-Moves :
      (node_name : String)
      → state_of wl ≡ DrainState.scaled_up
      → Keeps (Moves wl) (await_ready r wl node_name)
  unfolding await_ready find_ready_pod_on_other_node
  await_ready-Moves node_name e = search (moves_rules, ready-IsMove) depth 9

  pub handle_wait_ready-Moves :
      (node_name : String)
      → state_of wl ≡ DrainState.scaled_up
      → Keeps (Moves wl) (handle_wait_ready r wl node_name)
  unfolding handle_wait_ready
  handle_wait_ready-Moves node_name e =
      search (moves_rules, with_original-Moves, await_ready-Moves, surged-IsMove) depth 9

  pub handle_wait_eviction-Moves :
      (node_name : String)
      → state_of wl ≡ DrainState.ready
      → Keeps (Moves wl) (handle_wait_eviction r wl node_name)
  unfolding handle_wait_eviction find_pod_on_node
  handle_wait_eviction-Moves node_name e =
      search (moves_rules, with_original-Moves, drained-IsMove) depth 9

  pub handle_scale_down-Moves :
      state_of wl ≡ DrainState.draining → Keeps (Moves wl) (handle_scale_down r wl)
  unfolding handle_scale_down
  handle_scale_down-Moves e = search (moves_rules, with_original-Moves, done-IsMove) depth 9

pub handle_cleanup-Moves :
    (r : NodeReconciler) (wl : Workload)
    → state_of wl ≡ DrainState.done
    → Keeps (Moves wl) (handle_cleanup r wl)
unfolding handle_cleanup
handle_cleanup-Moves r wl e = search (moves_rules, cleared-IsMove) depth 9
