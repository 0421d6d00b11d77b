-- ===== src/Tests/Plain.antt =====
-- Witnesses for the lemmas on configuration, annotations, selectors, pods and taints.
use k8s_drain_surge.Base.{◌≡◌, ◌↔◌, refl, not, true, arith}
use k8s_drain_surge.Base.Int.{ℤ, pos, ◌+ℤ◌, ◌-ℤ◌, ◌<ℤ◌, ◌≤ℤ◌}
use k8s_drain_surge.Base.Maps.{insert}
use k8s_drain_surge.Errors.{ok}
use k8s_drain_surge.Strconv.{itoa}
use k8s_drain_surge.Config.{Config, CommandLine, set, returned, default_config, parse}
use k8s_drain_surge.Config.Validation.{IsValid, parse-iff-IsValid}
use k8s_drain_surge.State.{annotation_original_replicas, get_original_replicas}
use k8s_drain_surge.State.Replicas.{get_original_replicas-itoa}
use k8s_drain_surge.RestartDetect.{is_restart_stuck, restart_completed_by_argo, sub_time}
use k8s_drain_surge.RestartDetect.Stuck.{IsStuck, is_restart_stuck_iff, completed-eq-not-stuck}
use k8s_drain_surge.NodeController.Reconcile.{overrun, stale, timed_out, in_time}
use k8s_drain_surge.NodeController.Timeouts.{FitsThrice, overrun_lem}
use k8s_drain_surge.Tests.{two_pods, opted_in, web_rollout}

abbrev hurried : Config → Config
hurried c = record c { readiness_timeout = pos 1 }

abbrev impatient : Config → CommandLine
impatient c = set (hurried c)

parse-iff-IsValid_example :
    (parse impatient ≡ returned (ok (hurried default_config)))
    ↔ ((impatient default_config ≡ set (hurried default_config)) × IsValid (hurried default_config))
parse-iff-IsValid_example = parse-iff-IsValid impatient (hurried default_config)

get_original_replicas-itoa_example :
    get_original_replicas (insert annotation_original_replicas (itoa (pos 12)) opted_in)
    ≡ ok (pos 12)
get_original_replicas-itoa_example = get_original_replicas-itoa opted_in (pos 12) (ground arith)

is_restart_stuck_iff_example :
    (is_restart_stuck (web_rollout opted_in) two_pods (pos 60) (pos 900) ≡ true)
    ↔ ((restart_at : ℤ) × IsStuck (web_rollout opted_in) two_pods (pos 60) (pos 900) restart_at)
is_restart_stuck_iff_example =
    is_restart_stuck_iff (web_rollout opted_in) two_pods (pos 60) (pos 900)

past_grace : pos 60 ≤ℤ sub_time (pos 900) (pos 5)
unfolding sub_time ◌-ℤ◌
past_grace = ground arith

completed-eq-not-stuck_example :
    restart_completed_by_argo (web_rollout opted_in) two_pods
    ≡ not (is_restart_stuck (web_rollout opted_in) two_pods (pos 60) (pos 900))
completed-eq-not-stuck_example =
    completed-eq-not-stuck (web_rollout opted_in) two_pods (pos 60) (pos 900) (pos 5) refl
      (ground arith) past_grace

fits : FitsThrice (pos 10)
unfolding ◌+ℤ◌
fits = ground arith

overrun_lem_example :
    ((overrun (pos 10) (pos 25) ≡ stale) ↔ (pos 10 +ℤ pos 10 +ℤ pos 10 <ℤ pos 25))
    × ((overrun (pos 10) (pos 25) ≡ timed_out)
        ↔ ((pos 10 <ℤ pos 25) × (pos 25 ≤ℤ pos 10 +ℤ pos 10 +ℤ pos 10)))
    × ((overrun (pos 10) (pos 25) ≡ in_time) ↔ (pos 25 ≤ℤ pos 10))
overrun_lem_example = overrun_lem (pos 10) (pos 25) fits
