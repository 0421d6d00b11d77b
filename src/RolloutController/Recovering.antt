-- ===== src/RolloutController/Recovering.antt =====
-- Which restart-surges RecoverOrphans gives up.
use k8s_drain_surge.Base.{◌≡◌, ◌≢◌, ◌⊎◌, inl, inr, refl, true, false, Option, none, some, arith}
use k8s_drain_surge.Base.Int.{eqb_ℤ_iff}
use k8s_drain_surge.Errors.{ok}
use k8s_drain_surge.State.{DrainState}
use k8s_drain_surge.Kube.{Rollout, Time}
use k8s_drain_surge.Session.{Session, ◌>>=◌}
use k8s_drain_surge.RolloutController.Abort.{RolloutReconciler, abort_restart_surge}
use k8s_drain_surge.RolloutController.Reconcile.{restart_state_of}
use k8s_drain_surge.RolloutController.Watch.{argo_idle, recover_restart}

-- A restart is asked for that the status does not report as reached.
abbrev pub IsWaiting : Rollout → Type 0
IsWaiting ro = (t : Time) × (ro.restart_at ≡ some t) × (ro.restarted_at ≢ some t)

-- No restart is asked for, or the one asked for is reported as reached.
abbrev pub IsOver : Rollout → Type 0
IsOver ro =
    (ro.restart_at ≡ none) ⊎ ((t : Time) × (ro.restart_at ≡ some t) × (ro.restarted_at ≡ some t))

waiting_idle : (ro : Rollout) → IsWaiting ro → argo_idle ro ≡ false
waiting_idle ro (t, asked, behind) = at ro.restarted_at refl
  where
    at : (o : Option Time) → ro.restarted_at ≡ o → argo_idle ro ≡ false
    at none e = ground (arith, asked, e)
    at (some u) e = ground (arith, asked, e, behind, eqb_ℤ_iff u t)

over_idle : (ro : Rollout) → IsOver ro → argo_idle ro ≡ true
over_idle ro (inl free) = ground (arith, free)
over_idle ro (inr (t, asked, reached)) = ground (arith, asked, reached, eqb_ℤ_iff t t)

module _ (r : RolloutReconciler) (ro : Rollout) (s : Session) where
  -- RecoverOrphans does nothing to a Rollout that records no restart-surge, or that waits for a
  -- restart which its status does not report as reached.
  pub recover_restart-keeps :
      (restart_state_of ro ≡ DrainState.none) ⊎ IsWaiting ro → recover_restart r ro s ≡ (ok tt, s)
  unfolding recover_restart ◌>>=◌
  recover_restart-keeps (inl unsurged) = rw unsurged refl
  recover_restart-keeps (inr waiting) = ground (arith, waiting_idle ro waiting)

  -- RecoverOrphans acts as abortRestartSurge does, and drops its error, on a Rollout that records a
  -- restart-surge while no restart is asked for or the status reports the restart as reached.
  pub recover_restart-aborts :
      restart_state_of ro ≢ DrainState.none
      → IsOver ro
      → recover_restart r ro s ≡ (ok tt, (abort_restart_surge r ro s).1)
  unfolding recover_restart ◌>>=◌
  recover_restart-aborts surged over = ground (arith, surged, over_idle ro over)
