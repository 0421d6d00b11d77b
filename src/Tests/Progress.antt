-- ===== src/Tests/Progress.antt =====
-- Witnesses for the course of a drain, on the Deployment that is drained from node n1.
use k8s_drain_surge.Base.{ℕ, ◌≡◌, ◌⊎◌, refl, true, false, some, none, List, [], ◌∷◌}
use k8s_drain_surge.Base.Lists.{All}
use k8s_drain_surge.Base.Int.{pos, ◌+ℤ◌, ◌-ℤ◌, int64, wrap}
use k8s_drain_surge.Strconv.{itoa, atoi, decimal, digit}
use k8s_drain_surge.Errors.{ok, err, api}
use k8s_drain_surge.Config.{default_config}
use k8s_drain_surge.State.{drain_state}
use k8s_drain_surge.Kube.{Api, Time, Pdb}
use k8s_drain_surge.Session.Refused.{Refuses}
use k8s_drain_surge.Session.Retries.{retried}
use k8s_drain_surge.Workload.{
  is_stable, progressed, can_surge, get_pod_selector, selector_from_label_selector,
}
use k8s_drain_surge.Scaler.{
  first_hpa, any_pdb_covers, pdb_covers, requirements_match, requirements_found, requirement_found,
  ready_elsewhere, is_pod_ready, on_node,
}
use k8s_drain_surge.RestartDetect.{sub_time}
use k8s_drain_surge.NodeController.Reconcile.{overrun, in_time}
use k8s_drain_surge.NodeController.Lifecycle.Refinement.{
  Moved, stored_after, reconcile_workload-refines,
}
use k8s_drain_surge.NodeController.Progress.{InTime}
use k8s_drain_surge.NodeController.Progress.Start.{CanStart}
use k8s_drain_surge.NodeController.Progress.Rounds.{Round, step, IsOutage, IsServing}
use k8s_drain_surge.NodeController.Progress.Completion.{EndsAtRest, drain-completes}
use k8s_drain_surge.Tests.{app_selector, two_pods, cluster, node_reconciler, merge_patch, server}
use k8s_drain_surge.Tests.Drains.{idle, started, starts}

reconcile_workload-refines_example :
    let after = stored_after merge_patch node_reconciler started "n1" 0 server in
    (after ≡ server) ⊎ Moved started after
reconcile_workload-refines_example =
    reconcile_workload-refines merge_patch node_reconciler started "n1" 0 server starts

abbrev pub budgets : List Pdb
budgets = record { selector = some app_selector } ∷ []

starts_here : CanStart node_reconciler idle "n1" [] budgets none
unfolding drain_state is_stable progressed can_surge first_hpa any_pdb_covers pdb_covers
    requirements_match requirements_found requirement_found get_pod_selector
    selector_from_label_selector
starts_here = record {
  idle = refl;
  opted_in = refl;
  single = refl;
  stable = refl;
  free = refl;
  surgeable = refl;
  lists_hpas = λ k. refl;
  finds = refl;
  allows = refl;
  lists_pdbs = λ k. refl;
  covered = refl;
}

no_time_passes :
    overrun (pos 600000000000) (sub_time (pos 700000000000) (pos 700000000000)) ≡ in_time
unfolding overrun sub_time ◌+ℤ◌ ◌-ℤ◌ wrap int64
no_time_passes = refl

printed : atoi (itoa (pos 700000000000)) ≡ some (pos 700000000000)
unfolding itoa atoi decimal digit
printed = refl

start_here : (start : Time) → atoi (itoa (pos 700000000000)) ≡ some start → start ≡ pos 700000000000
start_here start e = cc (e, printed)

pub cluster-InTime : InTime cluster cluster (pos 600000000000)
cluster-InTime j k start e = rw (start_here start e) no_time_passes

abbrev round : Round
round = record { client = cluster; calls = 0 }

-- An API server that refuses every patch, with no pods in the cache.
abbrev pub refusing : Api
refusing = record cluster {
  patch = λ k w. err (api "conflict");
  list_pods = λ k namespace selector. ok [];
}

pub refusing-Refuses : Refuses refusing
refusing-Refuses k w = (api "conflict", refl)

-- Two rounds with it before each step.
abbrev pub outages : ℕ → List Round
outages i = let outage : Round = record { client = refusing; calls = 0 } in outage ∷ outage ∷ []

pub outages_fail : (i : ℕ) → All IsOutage (outages i)
outages_fail i = (refusing-Refuses, (refusing-Refuses, tt))

serving : IsServing default_config round round
serving = record { accepts = λ k w. refl; timely = cluster-InTime }

pub has_ready_pod : ready_elsewhere "n1" two_pods ≡ true
unfolding ready_elsewhere is_pod_ready
has_ready_pod = refl

pub has_no_pod : on_node "n1" two_pods ≡ false
unfolding on_node
has_no_pod = refl

drain-completes_example :
    EndsAtRest idle
      (retried (step merge_patch default_config idle "n1") outages)
      round
      round
      round
      round
      round
drain-completes_example =
    drain-completes merge_patch default_config idle "n1" round round round round round outages []
      budgets two_pods two_pods outages_fail starts_here (λ k w. refl) serving serving serving
      serving (λ k. refl) has_ready_pod (λ k. refl) has_no_pod
