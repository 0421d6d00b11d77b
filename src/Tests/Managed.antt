-- ===== src/Tests/Managed.antt =====
-- A witness for the course of a drain with an HPA, which allows three replicas.
use k8s_drain_surge.Base.{refl, none, some, [], ◌∷◌, arith}
use k8s_drain_surge.Base.Int.{pos}
use k8s_drain_surge.Errors.{ok}
use k8s_drain_surge.Config.{default_config}
use k8s_drain_surge.State.{drain_state}
use k8s_drain_surge.Kube.{Api, Hpa}
use k8s_drain_surge.Session.Retries.{retried}
use k8s_drain_surge.Workload.{
  is_stable, progressed, can_surge, get_pod_selector, selector_from_label_selector,
}
use k8s_drain_surge.Scaler.{
  first_hpa, any_pdb_covers, pdb_covers, requirements_match, requirements_found, requirement_found,
}
use k8s_drain_surge.NodeController.Progress.Start.{CanStart, HasRoom}
use k8s_drain_surge.NodeController.Progress.Rounds.{Round, IsServing}
use k8s_drain_surge.NodeController.Managed.Rounds.{managed_step}
use k8s_drain_surge.NodeController.Managed.Completion.{EndsAtRest, managed_drain-completes}
use k8s_drain_surge.Tests.{two_pods, cluster, merge_patch}
use k8s_drain_surge.Tests.Drains.{idle}
use k8s_drain_surge.Tests.Progress.{
  budgets, outages, outages_fail, cluster-InTime, has_ready_pod, has_no_pod,
}

abbrev web_hpa : Hpa
web_hpa = record {
  name = "web";
  target_name = "web";
  target_kind = "Deployment";
  max_replicas = pos 3;
  min_replicas = none;
}

abbrev scaled_cluster : Api
scaled_cluster = record cluster { list_hpas = λ n namespace. ok (web_hpa ∷ []) }

abbrev round : Round
round = record { client = scaled_cluster; calls = 0 }

serving : IsServing default_config round round
serving = record { accepts = λ k w. refl; timely = cluster-InTime }

has_room : HasRoom web_hpa
has_room = record { named = λ e. cc; fits = (omega arith, omega arith); room = refl; below = refl }

starts_managed :
    CanStart
      (record { client = scaled_cluster; config = default_config })
      idle
      "n1"
      (web_hpa ∷ [])
      budgets
      (some web_hpa)
unfolding drain_state is_stable progressed can_surge first_hpa any_pdb_covers pdb_covers
    requirements_match requirements_found requirement_found get_pod_selector
    selector_from_label_selector
starts_managed = record {
  idle = refl;
  opted_in = refl;
  single = refl;
  stable = refl;
  free = refl;
  surgeable = refl;
  lists_hpas = λ k. refl;
  finds = refl;
  allows = has_room;
  lists_pdbs = λ k. refl;
  covered = refl;
}

managed_drain-completes_example :
    EndsAtRest idle web_hpa
      (retried (managed_step merge_patch default_config idle "n1" web_hpa) outages)
      round
      round
      round
      round
      round
      (some (pos 2))
      (some (pos 2))
      (some (pos 2))
      (some (pos 1))
      none
managed_drain-completes_example =
    managed_drain-completes merge_patch default_config idle "n1" web_hpa round round round round
      round (some (pos 2)) (some (pos 2)) (some (pos 2)) (some (pos 1)) none (web_hpa ∷ []) budgets
      outages two_pods two_pods outages_fail starts_managed (λ k w. refl) serving serving serving
      serving (λ k. refl) has_ready_pod (λ k. refl) has_no_pod
