-- ===== src/RolloutController/Progress/Phases.antt =====
-- The states of a restart-surge without an HPA, one after the other, in a cluster that is ready for
-- the next.
use k8s_drain_surge.Base.{ℕ, String, ◌≡◌, refl, false, List, [], ◌∷◌, ◌≤◌, arith, Option, some}
use k8s_drain_surge.Base.Int.{ℤ, pos}
use k8s_drain_surge.Base.Maps.{GoMap, insert}
use k8s_drain_surge.State.{
  DrainState, drain_state, annotation_restart_surge_state, get_original_replicas,
  clear_restart_surge_annotations, restart_surge_full_keys,
}
use k8s_drain_surge.State.Clearing.{drain_state-text, erase_all-at}
use k8s_drain_surge.Kube.{Pod, Rollout}
use k8s_drain_surge.Session.{applied, event, normal}
use k8s_drain_surge.Workload.{rollout, object_ref, replicas_or_one, set_replicas, set_annotations}
use k8s_drain_surge.Workload.Patching.{MergePatch, Stored, stored, apply_effect}
use k8s_drain_surge.NodeController.Handlers.{annotate}
use k8s_drain_surge.NodeController.Progress.{Accepts, patch_to}
use k8s_drain_surge.NodeController.Progress.Handlers.{Lists}
use k8s_drain_surge.RolloutController.Abort.{RolloutReconciler}
use k8s_drain_surge.RolloutController.Handlers.{ready_count}
use k8s_drain_surge.RolloutController.Reconcile.{drain_in_progress, restart_dispatch}
use k8s_drain_surge.RolloutController.Progress.{
  IsSurgeAt, SurgeInTime, surge_stored, surge_next-after,
}
use k8s_drain_surge.RolloutController.Progress.Handlers.{
  ArgoFinished, history-handle_restart_wait_ready, history-scale_down_after_restart,
  handle_restart_wait_for_argo-done, restart_completed, annotations-restart_completed,
  replicas-restart_completed, history-handle_restart_scale_down, history-handle_restart_cleanup,
}

module _ (r0 : RolloutReconciler) (base : Rollout) where
  -- The server's Rollout in a restart-surge at this state.
  abbrev pub IsSurgingAt : DrainState → ℤ → Stored → Type 0
  IsSurgingAt state n st = IsSurgeAt r0 base state n st.replicas st.annotations

  restated-IsSurgeAt :
      (state next : DrainState) (n m : ℤ) (replicas replicas' : Option ℤ) (t : String)
      (a : GoMap String)
      → IsSurgeAt r0 base state n replicas a
      → drain_state t ≡ next
      → replicas_or_one replicas' ≡ m
      → IsSurgeAt r0 base next m replicas' (insert annotation_restart_surge_state t a)
  unfolding get_original_replicas
  restated-IsSurgeAt state next n m replicas replicas' t a at e f = record {
    at_state = e;
    at_replicas = f;
    original = at.original;
    plain = at.plain;
    stamp = at.stamp;
    others = λ k other. ground (arith, other, at.others k other);
  }

module _ (mp : MergePatch) (r0 r : RolloutReconciler) (base ro : Rollout) (calls : ℕ)
    (free : drain_in_progress base ≡ false) (accepts : Accepts r.client)
    (timely : SurgeInTime r0 r) where
  abbrev after : Stored
  after = surge_stored mp r ro calls

  -- A restart-surge in the state scaled-up becomes ready once the cluster lists two ready pods.
  pub surge_becomes_ready :
      (pods : List Pod)
      → IsSurgeAt r0 base DrainState.scaled_up (pos 2) ro.replicas ro.object_meta.annotations
      → Lists r.client (rollout ro) pods
      → 2 ≤ ready_count pods
      → IsSurgingAt r0 base DrainState.ready (pos 2) after
  unfolding restart_dispatch stored apply_effect
  surge_becomes_ready pods at lists ready =
      rw
        (surge_next-after mp r0 r base ro calls free timely DrainState.scaled_up (pos 2)
          (annotate annotation_restart_surge_state "ready" (rollout ro)) []
          (event (object_ref (rollout ro)) normal "RestartSurgeReady" ∷ []) at
          (λ k other. ground (arith, other))
          (λ s.
            history-handle_restart_wait_ready r ro s accepts at.plain at.original pods
              at.at_replicas lists ready)
          (λ st es. refl) refl)
        (restated-IsSurgeAt r0 base DrainState.scaled_up DrainState.ready (pos 2) (pos 2)
          ro.replicas ro.replicas "ready" ro.object_meta.annotations at drain_state-text.2
          at.at_replicas)

  -- A ready one scales down once Argo has finished the restart.
  pub surge_scales_down :
      (n : ℤ) (pods : List Pod)
      → IsSurgeAt r0 base DrainState.ready n ro.replicas ro.object_meta.annotations
      → ArgoFinished r ro pods
      → IsSurgingAt r0 base DrainState.draining (pos 1) after
  unfolding restart_dispatch stored apply_effect
  surge_scales_down n pods at finished =
      rw
        (surge_next-after mp r0 r base ro calls free timely DrainState.ready n
          (annotate annotation_restart_surge_state "draining" (set_replicas (pos 1) (rollout ro)))
          (event (object_ref (rollout ro)) normal "RestartSurgeScaleDown" ∷ []) [] at
          (λ k other. ground (arith, other))
          (λ s.
            handle_restart_wait_for_argo-done r ro pods s
              (λ out.
                out.1.history
                ≡ event (object_ref (rollout ro)) normal "RestartSurgeScaleDown"
                  ∷ applied (
                      patch_to (rollout ro) (
                        annotate annotation_restart_surge_state "draining"
                          (set_replicas (pos 1) (rollout ro))))
                  ∷ s.history)
              finished
              (λ s' same.
                rw (history-scale_down_after_restart r ro s' accepts at.plain at.original, same)
                  refl))
          (λ st es. refl) refl)
        (restated-IsSurgeAt r0 base DrainState.ready DrainState.draining n (pos 1) ro.replicas
          (some (pos 1)) "draining" ro.object_meta.annotations at drain_state-text.3 refl)

  -- One that has scaled down is done.
  pub surge_becomes_done :
      (n : ℤ)
      → IsSurgeAt r0 base DrainState.draining n ro.replicas ro.object_meta.annotations
      → IsSurgingAt r0 base DrainState.done (pos 1) after
  unfolding restart_dispatch stored apply_effect
  surge_becomes_done n at =
      rw
        (
          surge_next-after mp r0 r base ro calls free timely DrainState.draining n
              (restart_completed ro) [] [] at
              (λ k other. rw (annotations-restart_completed ro) (ground (arith, other)))
              (λ s. history-handle_restart_scale_down r ro s accepts at.plain at.original)
              (λ st es. refl) refl,
          annotations-restart_completed ro,
        )
        (restated-IsSurgeAt r0 base DrainState.draining DrainState.done n (pos 1) ro.replicas _
          "done" ro.object_meta.annotations at drain_state-text.4 (replicas-restart_completed ro))

  -- A done one is cleared.
  pub surge_is_cleared :
      (n : ℤ)
      → IsSurgeAt r0 base DrainState.done n ro.replicas ro.object_meta.annotations
      → after ≡ record {
        replicas = ro.replicas;
        annotations = clear_restart_surge_annotations ro.object_meta.annotations;
      }
  unfolding restart_dispatch stored apply_effect clear_restart_surge_annotations
  surge_is_cleared n at =
      surge_next-after mp r0 r base ro calls free timely DrainState.done n
        (set_annotations (clear_restart_surge_annotations ro.object_meta.annotations) (rollout ro))
        (event (object_ref (rollout ro)) normal "RestartSurgeComplete" ∷ []) [] at
        (λ k other.
          rw (erase_all-at restart_surge_full_keys ro.object_meta.annotations k, other) refl)
        (λ s. history-handle_restart_cleanup r ro s accepts) (λ st es. refl) refl
