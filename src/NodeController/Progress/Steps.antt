-- ===== src/NodeController/Progress/Steps.antt =====
-- The server's object after a handler whose patch keeps to a drain.
use k8s_drain_surge.Base.{ℕ, String, ◌≡◌, refl, false, Option, List, [], ◌∷◌, ◌++◌, ◌≢◌, arith}
use k8s_drain_surge.Base.Int.{ℤ}
use k8s_drain_surge.Base.Maps.{GoMap, insert}
use k8s_drain_surge.State.{
  DrainState, drain_state, annotation_drain_state, get_original_replicas, clear_drain_annotations,
  drain_annotation_keys,
}
use k8s_drain_surge.State.Clearing.{erase_all-at}
use k8s_drain_surge.Kube.{Api}
use k8s_drain_surge.Session.{Session, Effect, applied}
use k8s_drain_surge.Workload.{
  Workload, rollout, deployment, annotations, object_ref, spec_replicas, replicas_or_one,
  get_replicas, set_annotations,
}
use k8s_drain_surge.Workload.Patching.{MergePatch, Stored, stored, is_owned}
use k8s_drain_surge.NodeController.Abort.{NodeReconciler}
use k8s_drain_surge.NodeController.Handlers.{annotate}
use k8s_drain_surge.NodeController.Reconcile.{dispatch, reconcile_workload}
use k8s_drain_surge.NodeController.Reachable.{view}
use k8s_drain_surge.NodeController.Lifecycle.Refinement.{stored_after}
use k8s_drain_surge.NodeController.Progress.{
  InTime, Autoscaler, IsDrainAt, patch_to, stored-patch_to, reconcile_workload-dispatched,
}

module _ (c0 : Api) (base : Workload) (node_name : String) (au : Autoscaler) where
  -- The server's object in a drain at this state.
  abbrev pub IsHeldAt : DrainState → ℤ → Stored → Type 0
  IsHeldAt state n st = IsDrainAt c0 base node_name au state n st.replicas st.annotations

  restated-IsDrainAt :
      (state next : DrainState) (n m : ℤ) (replicas replicas' : Option ℤ) (t : String)
      (a : GoMap String)
      → IsDrainAt c0 base node_name au state n replicas a
      → drain_state t ≡ next
      → replicas_or_one replicas' ≡ m
      → IsDrainAt c0 base node_name au next m replicas' (insert annotation_drain_state t a)
  unfolding get_original_replicas
  restated-IsDrainAt state next n m replicas replicas' t a at e f = record {
    at_state = e;
    at_replicas = f;
    original = at.original;
    node = at.node;
    hpa = at.hpa;
    minimum = at.minimum;
    stamp = at.stamp;
    foreign = λ k owned. ground (arith, at.foreign k owned);
  }

  pub annotated-IsHeldAt :
      (state next : DrainState) (n m : ℤ) (t : String) (wl copy : Workload)
      → IsDrainAt c0 base node_name au state n (spec_replicas wl) (annotations wl)
      → annotations copy ≡ annotations wl
      → drain_state t ≡ next
      → get_replicas copy ≡ m
      → IsHeldAt next m (view (annotate annotation_drain_state t copy))
  annotated-IsHeldAt state next n m t wl (rollout ro) at kept e f =
      rw kept (restated-IsDrainAt state next n m _ _ t (annotations wl) at e f)
  annotated-IsHeldAt state next n m t wl (deployment d) at kept e f =
      rw kept (restated-IsDrainAt state next n m _ _ t (annotations wl) at e f)

pub spec_replicas-counted :
    {n : ℤ} (wl : Workload) → replicas_or_one (spec_replicas wl) ≡ n → get_replicas wl ≡ n
spec_replicas-counted (rollout ro) e = e
spec_replicas-counted (deployment d) e = e

pub annotations-annotated :
    (wl : Workload) (t : String) (copy : Workload)
    → annotations copy ≡ annotations wl
    → (k : String) → is_owned k ≡ false
    → annotations (annotate annotation_drain_state t copy) k ≡ annotations wl k
annotations-annotated wl t (rollout ro) kept k foreign = rw kept (ground (arith, foreign))
annotations-annotated wl t (deployment d) kept k foreign = rw kept (ground (arith, foreign))

pub annotations-cleared :
    (wl : Workload) (k : String)
    → is_owned k ≡ false
    → annotations (set_annotations (clear_drain_annotations (annotations wl)) wl) k
      ≡ annotations wl k
unfolding clear_drain_annotations
annotations-cleared (rollout ro) k foreign =
    ground (arith, erase_all-at drain_annotation_keys ro.object_meta.annotations k)
annotations-cleared (deployment d) k foreign =
    ground (arith, erase_all-at drain_annotation_keys d.object_meta.annotations k)

module _ (mp : MergePatch) (c0 : Api) (r : NodeReconciler) (base wl : Workload) (node_name : String)
    (au : Autoscaler) (calls : ℕ) (timely : InTime c0 r.client r.config.readiness_timeout) where
  abbrev pub after : Stored
  after = stored_after mp r wl node_name calls (view wl)

  -- What a reconcile that reaches such a handler has done.
  pub history-after :
      (state : DrainState) (n : ℤ) (next : Workload) (late early : List Effect)
      → IsDrainAt c0 base node_name au state n (spec_replicas wl) (annotations wl)
      → state ≢ DrainState.none
      → ((s : Session)
          → (dispatch r state wl node_name s).1.history
            ≡ late ++ (applied (patch_to wl next) ∷ (early ++ s.history)))
      → (reconcile_workload r wl node_name (record { calls = calls; history = [] })).1.history
        ≡ late ++ (applied (patch_to wl next) ∷ (early ++ []))
  history-after state n next late early at started sends =
      reconcile_workload-dispatched c0 r base wl node_name au state n at
        (record { calls = calls; history = [] })
        (λ out. out.1.history ≡ late ++ (applied (patch_to wl next) ∷ (early ++ []))) started timely
        (λ s same. rw (sends s, same) refl)

  -- A handler that sends `next` in a patch leaves that in the server.
  pub next-after :
      (state : DrainState) (n : ℤ) (next : Workload) (late early : List Effect)
      → IsDrainAt c0 base node_name au state n (spec_replicas wl) (annotations wl)
      → state ≢ DrainState.none
      → ((k : String) → is_owned k ≡ false → annotations next k ≡ annotations wl k)
      → ((s : Session)
          → (dispatch r state wl node_name s).1.history
            ≡ late ++ (applied (patch_to wl next) ∷ (early ++ s.history)))
      → ((st : Stored) (es : List Effect)
          → stored mp (object_ref wl) st (late ++ es) ≡ stored mp (object_ref wl) st es)
      → stored mp (object_ref wl) (view wl) (early ++ []) ≡ view wl
      → after ≡ view next
  unfolding stored
  next-after state n next late early at started kept sends silent before =
      rw (history-after state n next late early at started sends, silent)
        (stored-patch_to mp wl next (view wl) (early ++ []) kept before)
