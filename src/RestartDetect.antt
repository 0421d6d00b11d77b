-- ===== src/RestartDetect.antt =====
-- internal/controller/restart_detect.go: when an Argo restart is stuck, and when it is done.
pub mod Stuck
use k8s_drain_surge.Base.{
  String, Bool, true, false, ◌&&◌, ◌||◌, not, Option, none, some, List, [], ◌∷◌, if◌then◌else◌,
}
use k8s_drain_surge.Base.Int.{ℤ, pos, negsuc, ◌-ℤ◌, ltb_ℤ}
use k8s_drain_surge.Kube.{Time, Pod, Rollout, time_equal}
use k8s_drain_surge.Scaler.{is_pod_terminating}

-- now.Sub(t): a Duration stops at the ends of int64.
unfoldable pub sub_time : Time → Time → ℤ
sub_time a b =
    let d = a -ℤ b in
    if ltb_ℤ (pos 9223372036854775807) d
    then pos 9223372036854775807
    else if ltb_ℤ d (negsuc 9223372036854775807)
    then negsuc 9223372036854775807
    else d

-- The loop of isRestartStuck over the pods.
unfoldable pub has_older_pod : Time → List Pod → Bool
has_older_pod restart_at [] = false
has_older_pod restart_at (p ∷ pods) =
    (not (is_pod_terminating p) && ltb_ℤ p.creation_timestamp restart_at)
    || has_older_pod restart_at pods

-- status.restartedAt is set and has reached spec.restartAt.
abbrev pub restarted : Rollout → Bool
restarted ro = elim ro.restarted_at [ none ↦ false | some t ↦ time_equal (some t) ro.restart_at ]

unfoldable pub is_restart_stuck : Rollout → List Pod → ℤ → Time → Bool
is_restart_stuck ro pods grace_period now = elim ro.restart_at [
  | none ↦ false
  | some restart_at ↦
      if restarted ro
      then false
      else if ltb_ℤ now restart_at
      then false
      else if ltb_ℤ (sub_time now restart_at) grace_period
      then false
      else has_older_pod restart_at pods
]

-- The loop of restartCompletedByArgo over the pods.
unfoldable pub all_replaced : Time → List Pod → Bool
all_replaced restart_at [] = true
all_replaced restart_at (p ∷ pods) =
    let rest = all_replaced restart_at pods in
    if is_pod_terminating p
    then rest
    else if ltb_ℤ p.creation_timestamp restart_at
    then false
    else rest

unfoldable pub restart_completed_by_argo : Rollout → List Pod → Bool
restart_completed_by_argo ro pods = elim ro.restart_at [
  | none ↦ true
  | some restart_at ↦ if restarted ro then true else all_replaced restart_at pods
]
