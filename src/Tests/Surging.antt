-- ===== src/Tests/Surging.antt =====
-- A witness for the course of a restart-surge, on a Rollout with a restart that is stuck.
use k8s_drain_surge.Base.{ℕ, List, ◌∷◌, ◌≤◌, refl, inl, none, some, Option, [], arith}
use k8s_drain_surge.Base.Lists.{All}
use k8s_drain_surge.Base.Int.{pos, ◌-ℤ◌}
use k8s_drain_surge.Config.{default_config}
use k8s_drain_surge.State.{drain_state}
use k8s_drain_surge.Kube.{Rollout, Time}
use k8s_drain_surge.Session.Retries.{retried}
use k8s_drain_surge.Workload.{is_stable_for_restart, get_pod_selector, selector_from_label_selector}
use k8s_drain_surge.Scaler.{
  first_hpa, any_pdb_covers, pdb_covers, requirements_match, requirements_found, requirement_found,
  is_pod_ready,
}
use k8s_drain_surge.RestartDetect.{is_restart_stuck, has_older_pod, sub_time}
use k8s_drain_surge.RolloutController.Handlers.{ready_count}
use k8s_drain_surge.RolloutController.Progress.Start.{CanSurge}
use k8s_drain_surge.RolloutController.Progress.Completion.{
  Round, step, reconciler, reported, IsOutage, IsServing, EndsAtRest, surge-completes,
}
use k8s_drain_surge.Tests.{two_pods, cluster, merge_patch, opted_in, web_rollout}
use k8s_drain_surge.Tests.Progress.{budgets, cluster-InTime, refusing, refusing-Refuses}

-- The restart is asked for at a time after the creation of its pods.
abbrev pub restarting : Rollout
restarting = record (web_rollout opted_in) { restart_at = some (pos 100000); restarted_at = none }

abbrev round_at : Option Time → Round
round_at restarted_at = record {
  client = cluster;
  now = none;
  calls = 0;
  restarted_at = restarted_at;
  phase = "Healthy";
  message = "";
}

-- Argo is behind, or has caught up.
abbrev behind : Round
behind = round_at none

abbrev caught_up : Round
caught_up = round_at (some (pos 100000))

surges_here :
    CanSurge (reconciler default_config behind) (reported restarting behind) [] budgets two_pods
unfolding drain_state is_stable_for_restart first_hpa any_pdb_covers pdb_covers requirements_match
    requirements_found requirement_found get_pod_selector selector_from_label_selector
    is_restart_stuck has_older_pod sub_time ◌-ℤ◌
surges_here = record {
  idle = refl;
  free = refl;
  opted_in = refl;
  single = refl;
  unmanaged = refl;
  lists_pods = λ k. refl;
  stuck = λ k. refl;
  stable = refl;
  lists_pdbs = λ k. refl;
  covered = refl;
  lists_hpas = λ k. refl;
  no_hpa = refl;
}

serving : (restarted_at : Option Time) → IsServing default_config behind (round_at restarted_at)
serving restarted_at = record { accepts = λ k w. refl; timely = cluster-InTime }

both_ready : 2 ≤ ready_count two_pods
unfolding ready_count is_pod_ready
both_ready = omega arith

-- Two rounds in an outage of the API server before each step.
abbrev outages : ℕ → List Round
outages i = let outage : Round = record behind { client = refusing } in outage ∷ outage ∷ []

outages_fail : (i : ℕ) → All IsOutage (outages i)
outages_fail i = (refusing-Refuses, (refusing-Refuses, tt))

surge-completes_example :
    EndsAtRest restarting
      (retried (step default_config merge_patch restarting) outages)
      behind
      behind
      caught_up
      caught_up
      caught_up
surge-completes_example =
    surge-completes merge_patch default_config restarting behind behind caught_up caught_up
      caught_up outages [] budgets two_pods two_pods [] outages_fail surges_here (λ k w. refl)
      (serving none) (serving (some (pos 100000))) (serving (some (pos 100000)))
      (serving (some (pos 100000))) (λ k. refl) both_ready (inl refl)
