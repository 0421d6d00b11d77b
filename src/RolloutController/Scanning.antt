-- ===== src/RolloutController/Scanning.antt =====
-- What RecoverOrphans does to all the Rollouts that it lists.
use k8s_drain_surge.Base.{
  ℕ, suc, ◌≡◌, ◌≢◌, ◌⊎◌, inl, inr, ◌∙◌, refl, Option, none, some, List, [], ◌∷◌, arith, Bool-cases,
}
use k8s_drain_surge.Base.Int.{eqb_ℤ, eqb_ℤ_iff}
use k8s_drain_surge.Errors.{ok}
use k8s_drain_surge.State.{DrainState}
use k8s_drain_surge.Kube.{Rollout, Time}
use k8s_drain_surge.Session.{Session, bind_ok, ◌>>=◌}
use k8s_drain_surge.RolloutController.Abort.{RolloutReconciler, abort_restart_surge}
use k8s_drain_surge.RolloutController.Reconcile.{restart_state_of}
use k8s_drain_surge.RolloutController.Watch.{is_none, recover_restarts, recover_orphans}
use k8s_drain_surge.RolloutController.Recovering.{
  IsWaiting, IsOver, recover_restart-keeps, recover_restart-aborts,
}

-- The Rollout records no restart-surge, or waits for a restart.
abbrev pub IsSettled : Rollout → Type 0
IsSettled ro = (restart_state_of ro ≡ DrainState.none) ⊎ IsWaiting ro

-- It records one, and no restart is to come.
abbrev pub IsOrphaned : Rollout → Type 0
IsOrphaned ro = (restart_state_of ro ≢ DrainState.none) × IsOver ro

still_to_come : (ro : Rollout) → IsWaiting ro ⊎ IsOver ro
still_to_come ro = at ro.restart_at refl ro.restarted_at refl
  where
    at :
        (asked : Option Time)
        → ro.restart_at ≡ asked
        → (reached : Option Time) → ro.restarted_at ≡ reached
        → IsWaiting ro ⊎ IsOver ro
    at none a reached d = inr (inl a)
    at (some t) a none d = inl (t, a, ground (arith, d))
    at (some t) a (some u) d = elim (Bool-cases (eqb_ℤ u t)) [
      | inl same ↦ inr (inr (t, a, ground (arith, d, same, eqb_ℤ_iff u t)))
      | inr differ ↦ inl (t, a, ground (arith, d, differ, eqb_ℤ_iff u t))
    ]

passed_or_given_up : (ro : Rollout) → IsSettled ro ⊎ IsOrphaned ro
passed_or_given_up ro = elim (Bool-cases (is_none (restart_state_of ro))) [
  | inl unsurged ↦ inl (inl (ground (arith, unsurged)))
  | inr surged ↦ elim (still_to_come ro) [
    | inl waiting ↦ inl (inr waiting)
    | inr over ↦ inr (ground (arith, surged), over)
  ]
]

module _ (r : RolloutReconciler) where
  -- A scan over Rollouts gives the orphaned ones up, one after the other, whether or not that fails,
  -- and passes the others over.
  pub data Scans : List Rollout → Session → Session → Type 0 where
    ended : (s : Session) → Scans [] s s
    passed :
        {s s' : Session} {ros : List Rollout} (ro : Rollout)
        → IsSettled ro
        → Scans ros s s'
        → Scans (ro ∷ ros) s s'
    given_up :
        {s s' : Session} {ros : List Rollout} (ro : Rollout)
        → IsOrphaned ro
        → Scans ros (abort_restart_surge r ro s).1 s'
        → Scans (ro ∷ ros) s s'

  recover_restarts-Scans :
      (ros : List Rollout) (s : Session)
      → (s' : Session) × Scans ros s s' × (recover_restarts r ros s ≡ (ok tt, s'))
  unfolding recover_restarts
  recover_restarts-Scans [] s = (s, ended s, unfold ◌>>=◌ in refl)
  recover_restarts-Scans (ro ∷ ros) s = elim (passed_or_given_up ro) [
    | inl settled ↦
        let (s', scan, e) = recover_restarts-Scans ros s in
        (s', passed ro settled scan, bind_ok _ _ (recover_restart-keeps r ro s settled) ∙ e)
    | inr orphaned ↦
        let (s', scan, e) = recover_restarts-Scans ros (abort_restart_surge r ro s).1 in
        (
          s',
          given_up ro orphaned scan,
          bind_ok _ _ (recover_restart-aborts r ro s orphaned.0 orphaned.1) ∙ e,
        )
  ]

  -- If the Rollouts can be listed, RecoverOrphans returns without an error, and in the order of the
  -- list aborts each restart-surge of a Rollout of which no restart is asked for or the one asked for
  -- is reported as reached, whether or not an abort fails, and passes over each Rollout that records
  -- no restart-surge or waits for a restart.
  pub recover_orphans-Scans_surges :
      (s : Session) (ros : List Rollout)
      → ((k : ℕ) → r.client.list_rollouts k ≡ ok ros)
      → (after : Session) × Scans ros (record s { calls = suc s.calls }) after
        × (recover_orphans r s ≡ (ok tt, after))
  unfolding recover_orphans ◌>>=◌
  recover_orphans-Scans_surges s ros lists =
      let (after, scan, e) = recover_restarts-Scans ros (record s { calls = suc s.calls }) in
      (after, scan, ground (arith, lists s.calls, e))
