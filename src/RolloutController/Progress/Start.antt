-- ===== src/RolloutController/Progress/Start.antt =====
-- How the restart-surge of a Rollout without an HPA starts.
use k8s_drain_surge.Base.{
  ℕ, suc, String, ◌≡◌, refl, true, false, none, List, [], ◌∷◌, arith, eq_iff,
}
use k8s_drain_surge.Base.Int.{pos, eqb_ℤ_iff}
use k8s_drain_surge.Base.Maps.{get}
use k8s_drain_surge.Errors.{ok}
use k8s_drain_surge.State.{DrainState, annotation_hpa_name, mem_key, restart_surge_full_keys}
use k8s_drain_surge.State.Clearing.{drain_state-text}
use k8s_drain_surge.Kube.{Hpa, Pdb, Pod, Rollout, requirements}
use k8s_drain_surge.Session.{Session, applied, event, normal, ◌>>=◌}
use k8s_drain_surge.Workload.{
  Workload, rollout, annotations, object_ref, get_pod_selector, get_replicas, set_replicas,
  is_stable_for_restart, can_surge,
}
use k8s_drain_surge.Workload.Patching.{MergePatch, stored, apply_effect}
use k8s_drain_surge.Scaler.{find_matching_hpa, first_hpa, find_matching_pdb, any_pdb_covers}
use k8s_drain_surge.RestartDetect.{is_restart_stuck}
use k8s_drain_surge.NodeController.Handlers.{surge_target}
use k8s_drain_surge.NodeController.Reachable.{view}
use k8s_drain_surge.NodeController.Recorded.Start.{itoa-one}
use k8s_drain_surge.NodeController.Recorded.Laws.{original_one}
use k8s_drain_surge.NodeController.Lifecycle.{surge_target-one}
use k8s_drain_surge.NodeController.Progress.{Accepts, patch_to, history-patch, stored-patch_to}
use k8s_drain_surge.NodeController.Progress.Handlers.{Lists}
use k8s_drain_surge.RolloutController.Abort.{RolloutReconciler}
use k8s_drain_surge.RolloutController.Handlers.{
  handle_restart_pending, start_restart_surge, restart_surge_started, restart_surge_replicas,
}
use k8s_drain_surge.RolloutController.Reconcile.{
  restart_state_of, drain_in_progress, reconcile_restart, measure_restart_overrun, restart_dispatch,
}
use k8s_drain_surge.RolloutController.Progress.{
  clock, time_now-clock, surge_stored, restart_measured-dispatched, owned_of_surge,
}
use k8s_drain_surge.RolloutController.Progress.Phases.{IsSurgingAt}

-- The Rollout has a stuck restart, a disruption budget covers it, it has no HPA, and it is not
-- drained.
pub record CanSurge (r : RolloutReconciler) (ro : Rollout) (hpas : List Hpa) (pdbs : List Pdb)
    (pods : List Pod) : Type 0 where
  pub idle : restart_state_of ro ≡ DrainState.none
  pub free : drain_in_progress ro ≡ false
  pub opted_in : get ro.object_meta.annotations r.config.enabled_annotation ≡ "true"
  pub single : get_replicas (rollout ro) ≡ pos 1
  pub unmanaged : get ro.object_meta.annotations annotation_hpa_name ≡ ""
  pub lists_pods : Lists r.client (rollout ro) pods
  pub stuck :
      (k : ℕ) → is_restart_stuck ro pods r.config.restart_surge_grace_period (clock r k) ≡ true
  pub stable : is_stable_for_restart ro ≡ true
  pub lists_pdbs : (k : ℕ) → r.client.list_pdbs k ro.object_meta.namespace ≡ ok pdbs
  pub covered :
      any_pdb_covers r.client pdbs (requirements (get_pod_selector r.client (rollout ro))) ≡ true
  pub lists_hpas : (k : ℕ) → r.client.list_hpas k ro.object_meta.namespace ≡ ok hpas
  pub no_hpa : first_hpa ro.object_meta.name "Rollout" hpas ≡ none

-- The object that starts the surge, with the time of the run's fourth call.
abbrev pub surging : RolloutReconciler → Rollout → ℕ → Workload
surging r ro calls =
    set_replicas (surge_target (get_replicas (rollout ro)))
      (restart_surge_started r.client (rollout ro) (clock r (suc (suc (suc calls)))))

module _ (r : RolloutReconciler) (ro : Rollout) (s : Session) (hpas : List Hpa) (pdbs : List Pdb)
    (pods : List Pod) (can : CanSurge r ro hpas pdbs pods) where
  handle_restart_pending-starts :
      handle_restart_pending r ro s
      ≡ start_restart_surge r ro (record s { calls = suc (suc s.calls) })
  unfolding handle_restart_pending can_surge ◌>>=◌
  handle_restart_pending-starts = ground (
    arith,
    eq_iff (get ro.object_meta.annotations r.config.enabled_annotation) "true",
    eqb_ℤ_iff (get_replicas (rollout ro)) (pos 1),
    can,
    can.lists_pods s.calls,
    time_now-clock r (record s { calls = suc s.calls }),
    can.stuck (suc s.calls),
  )

  -- What starts the surge: an event and one patch.
  history-start_restart_surge :
      Accepts r.client
      → (start_restart_surge r ro (record s { calls = suc (suc s.calls) })).1.history
        ≡ applied (patch_to (rollout ro) (surging r ro s.calls))
          ∷ event (object_ref (surging r ro s.calls)) normal "RestartSurgeStart"
          ∷ s.history
  unfolding start_restart_surge find_matching_pdb find_matching_hpa restart_surge_replicas ◌>>=◌
      restart_surge_started
  history-start_restart_surge accepts = ground (
    arith,
    can.covered,
    can.no_hpa,
    can.lists_pdbs (suc (suc s.calls)),
    time_now-clock r (record s { calls = suc (suc (suc s.calls)) }),
    can.lists_hpas (suc (suc (suc (suc s.calls)))),
    history-patch r.client (rollout ro) (surging r ro s.calls)
        (record {
          calls = suc (suc (suc (suc (suc s.calls))));
          history = event (object_ref (rollout ro)) normal "RestartSurgeStart" ∷ s.history;
        })
        accepts refl,
  )

  pub reconcile_restart-starts :
      Accepts r.client
      → (reconcile_restart r ro s).1.history
        ≡ applied (patch_to (rollout ro) (surging r ro s.calls))
          ∷ event (object_ref (surging r ro s.calls)) normal "RestartSurgeStart"
          ∷ s.history
  unfolding reconcile_restart measure_restart_overrun restart_dispatch ◌>>=◌
  reconcile_restart-starts accepts =
      rw
        (
          can.idle,
          reconcile_restart,
          restart_measured-dispatched r ro DrainState.none s can.free,
          handle_restart_pending-starts,
        )
        (history-start_restart_surge accepts)

surging-IsSurgingAt :
    (r : RolloutReconciler) (ro : Rollout) (calls : ℕ)
    → get_replicas (rollout ro) ≡ pos 1
    → get ro.object_meta.annotations annotation_hpa_name ≡ ""
    → IsSurgingAt r ro DrainState.scaled_up (pos 2) (view (surging r ro calls))
unfolding restart_surge_started
surging-IsSurgingAt r ro calls one unmanaged =
    rw (one, itoa-one, surge_target-one)
      (record {
        at_state = drain_state-text.1;
        at_replicas = refl;
        original = original_one _ refl;
        plain = unmanaged;
        stamp = record { call = suc (suc (suc calls)); shown = refl };
        others = λ k other. ground (arith, other);
      })

others-surging :
    (r : RolloutReconciler) (ro : Rollout) (calls : ℕ) (k : String)
    → mem_key restart_surge_full_keys k ≡ false
    → annotations (surging r ro calls) k ≡ annotations (rollout ro) k
unfolding restart_surge_started
others-surging r ro calls k other = ground (arith, other)

-- A Rollout at rest with a stuck restart goes to the state scaled-up, with two replicas.
pub surge_begins :
    (mp : MergePatch) (r : RolloutReconciler) (ro : Rollout) (calls : ℕ) (hpas : List Hpa)
    (pdbs : List Pdb) (pods : List Pod)
    → Accepts r.client
    → CanSurge r ro hpas pdbs pods
    → IsSurgingAt r ro DrainState.scaled_up (pos 2) (surge_stored mp r ro calls)
unfolding stored apply_effect
surge_begins mp r ro calls hpas pdbs pods accepts can =
    rw
      (
        reconcile_restart-starts r ro (record { calls = calls; history = [] }) hpas pdbs pods can
            accepts,
        stored-patch_to mp (rollout ro) (surging r ro calls) (view (rollout ro))
            (event (object_ref (surging r ro calls)) normal "RestartSurgeStart" ∷ [])
            (λ k foreign. others-surging r ro calls k (owned_of_surge k foreign)) refl,
      )
      (surging-IsSurgingAt r ro calls can.single can.unmanaged)
