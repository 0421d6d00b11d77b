-- ===== src/RestartDetect/Stuck.antt =====
-- When a restart is stuck, and how that excludes its being done.
use k8s_drain_surge.Base.{
  ◌≡◌, ◌↔◌, ◌⊎◌, inl, inr, refl, true, false, not, Option, none, some, List, [], ◌∷◌, arith,
  Bool-cases,
}
use k8s_drain_surge.Base.Int.{ℤ, eqb_ℤ, eqb_ℤ_iff, ◌≤ℤ◌, ◌<ℤ◌}
use k8s_drain_surge.Kube.{Time, Pod, Rollout}
use k8s_drain_surge.Scaler.{is_pod_terminating}
use k8s_drain_surge.Base.Lists.{Any}
use k8s_drain_surge.RestartDetect.{
  sub_time, has_older_pod, all_replaced, restarted, is_restart_stuck, restart_completed_by_argo,
}

-- A pod that the restart has still to replace.
pub record IsOlder (restart_at : Time) (pod : Pod) : Type 0 where
  pub live : is_pod_terminating pod ≡ false
  pub older : pod.creation_timestamp <ℤ restart_at

has_older_pod_iff :
    (restart_at : Time) (pods : List Pod)
    → (has_older_pod restart_at pods ≡ true) ↔ Any (IsOlder restart_at) pods
unfolding has_older_pod
has_older_pod_iff restart_at [] = ground arith
has_older_pod_iff restart_at (pod ∷ pods) = ground (arith, has_older_pod_iff restart_at pods)

all_replaced-not :
    (restart_at : Time) (pods : List Pod)
    → all_replaced restart_at pods ≡ not (has_older_pod restart_at pods)
unfolding has_older_pod all_replaced
all_replaced-not restart_at [] = refl
all_replaced-not restart_at (pod ∷ pods) = ground (arith, all_replaced-not restart_at pods)

-- The status says that the requested restart has been reached.
abbrev pub HasReached : Rollout → Type 0
HasReached ro = (t : Time) × (ro.restart_at ≡ some t) × (ro.restarted_at ≡ some t)

-- No restart is asked for, or no live pod is older than the restart.
abbrev pub IsReplaced : Rollout → List Pod → Type 0
IsReplaced ro pods =
    (ro.restart_at ≡ none) ⊎ ((t : Time) × (ro.restart_at ≡ some t) × ¬ Any (IsOlder t) pods)

all_replaced-none :
    (restart_at : Time) (pods : List Pod)
    → all_replaced restart_at pods ≡ true
    → ¬ Any (IsOlder restart_at) pods
all_replaced-none restart_at pods h older =
    ground (arith, h, all_replaced-not restart_at pods, (has_older_pod_iff restart_at pods).1 older)

-- Where restartCompletedByArgo holds, no restart is asked for, the one asked for is reported as
-- reached, or no live pod is older than it.
pub restart_completed_by_argo-cases :
    (ro : Rollout) (pods : List Pod)
    → restart_completed_by_argo ro pods ≡ true
    → HasReached ro ⊎ IsReplaced ro pods
unfolding restart_completed_by_argo
restart_completed_by_argo-cases ro pods = at ro.restart_at refl ro.restarted_at refl
  where
    at :
        (asked : Option Time)
        → ro.restart_at ≡ asked
        → (reached : Option Time) → ro.restarted_at ≡ reached
        → restart_completed_by_argo ro pods ≡ true
        → HasReached ro ⊎ IsReplaced ro pods
    at none a reached d h = inr (inl a)
    at (some t) a none d h = inr (inr (t, a, all_replaced-none t pods (ground (arith, a, d, h))))
    at (some t) a (some u) d h = elim (Bool-cases (eqb_ℤ u t)) [
      | inl same ↦ inl (t, a, ground (arith, d, same, eqb_ℤ_iff u t))
      | inr other ↦ inr (inr (t, a, all_replaced-none t pods (ground (arith, a, d, h, other))))
    ]

-- A restart asked for at `restart_at` is stuck.
pub record IsStuck (ro : Rollout) (pods : List Pod) (grace_period : ℤ) (now restart_at : Time)
    : Type 0 where
  pub asked : ro.restart_at ≡ some restart_at
  pub unfinished : restarted ro ≡ false
  pub due : restart_at ≤ℤ now
  pub past_grace : grace_period ≤ℤ sub_time now restart_at
  pub pod_left : Any (IsOlder restart_at) pods

-- isRestartStuck holds exactly if a restart was asked for and not reported done, its time has come
-- and the grace period has passed, and a live pod is older than it.
pub is_restart_stuck_iff :
    (ro : Rollout) (pods : List Pod) (grace_period : ℤ) (now : Time)
    → (is_restart_stuck ro pods grace_period now ≡ true)
      ↔ ((restart_at : Time) × IsStuck ro pods grace_period now restart_at)
unfolding is_restart_stuck
is_restart_stuck_iff ro pods grace_period now = (forth ro.restart_at refl, back)
  where
    forth :
        (o : Option Time)
        → ro.restart_at ≡ o
        → is_restart_stuck ro pods grace_period now ≡ true
        → (restart_at : Time) × IsStuck ro pods grace_period now restart_at
    forth none e h = ground arith
    forth (some t) e h = (
      t,
      record {
        asked = e;
        unfinished = ground arith;
        due = ground arith;
        past_grace = ground arith;
        pod_left = (has_older_pod_iff t pods).0 (ground arith);
      },
    )

    back :
        ((restart_at : Time) × IsStuck ro pods grace_period now restart_at)
        → is_restart_stuck ro pods grace_period now ≡ true
    back (t, stuck) = ground (arith, (has_older_pod_iff t pods).1 stuck.pod_left, stuck)

-- For a restart that is due and past its grace period, restartCompletedByArgo is the opposite of
-- isRestartStuck.
pub completed-eq-not-stuck :
    (ro : Rollout) (pods : List Pod) (grace_period : ℤ) (now restart_at : Time)
    → ro.restart_at ≡ some restart_at
    → restart_at ≤ℤ now
    → grace_period ≤ℤ sub_time now restart_at
    → restart_completed_by_argo ro pods ≡ not (is_restart_stuck ro pods grace_period now)
unfolding is_restart_stuck restart_completed_by_argo
completed-eq-not-stuck ro pods grace_period now restart_at e due past =
    ground (arith, all_replaced-not restart_at pods)
