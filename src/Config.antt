-- ===== src/Config.antt =====
-- internal/config/config.go: the configuration, its defaults and its validation.
-- Durations are int64 nanoseconds.
pub mod Validation
use k8s_drain_surge.Base.{ℕ, String, Bool, true, false, List, [], ◌∷◌, ◌==◌, if◌then◌else◌}
use k8s_drain_surge.Base.Int.{ℤ, pos, leb_ℤ}
use k8s_drain_surge.Errors.{Result, ok, err, invalid}

pub record DrainTaint : Type 0 where
  pub key : String
  pub effect : String

pub record Config : Type 0 where
  pub drain_taints : List DrainTaint
  pub enabled_annotation : String
  pub requeue_interval : ℤ
  pub readiness_timeout : ℤ
  pub leader_elect : Bool
  pub metrics_addr : String
  pub health_addr : String
  pub restart_surge_enabled : Bool
  pub restart_surge_grace_period : ℤ
  pub restart_surge_timeout : ℤ

abbrev pub default_drain_taints : List DrainTaint
default_drain_taints =
    record { key = "karpenter.sh/disrupted"; effect = "NoSchedule" }
    ∷ record { key = "ToBeDeletedByClusterAutoscaler"; effect = "NoSchedule" }
    ∷ record { key = "node.kubernetes.io/unschedulable"; effect = "NoSchedule" }
    ∷ []

-- What the flags hold where the command line sets none of them.
abbrev pub default_config : Config
default_config = record {
  drain_taints = default_drain_taints;
  enabled_annotation = "k8s-drain-surge.io/enabled";
  requeue_interval = pos 5000000000;
  readiness_timeout = pos 600000000000;
  leader_elect = true;
  metrics_addr = ":8080";
  health_addr = ":8081";
  restart_surge_enabled = false;
  restart_surge_grace_period = pos 60000000000;
  restart_surge_timeout = pos 600000000000;
}

abbrev pub is_empty {ℓ} : {A : Type ℓ} → List A → Bool
is_empty [] = true
is_empty (x ∷ xs) = false

-- The checks under `if c.RestartSurgeEnabled`.
validate_restart_surge : Config → Result (Unit {0})
validate_restart_surge c =
    if leb_ℤ c.restart_surge_grace_period (pos 0)
    then err (invalid "--restart-surge-grace-period must be positive")
    else if leb_ℤ c.restart_surge_timeout c.restart_surge_grace_period
    then err (invalid "--restart-surge-timeout must be greater than --restart-surge-grace-period")
    else ok tt

unfoldable pub validate : Config → Result (Unit {0})
unfolding validate_restart_surge
validate c =
    if leb_ℤ c.requeue_interval (pos 0)
    then err (invalid "--requeue-interval must be positive")
    else if leb_ℤ c.readiness_timeout (pos 0)
    then err (invalid "--readiness-timeout must be positive")
    else if leb_ℤ c.readiness_timeout c.requeue_interval
    then err (invalid "--readiness-timeout must be greater than --requeue-interval")
    else if is_empty c.drain_taints
    then err (invalid "at least one drain taint must be configured")
    else if c.enabled_annotation == ""
    then err (invalid "--enabled-annotation must not be empty")
    else if c.restart_surge_enabled
    then validate_restart_surge c
    else ok tt

abbrev pub checked : Config → Result (Unit {0}) → Result Config
checked c (ok _) = ok c
checked c (err e) = err e

-- What flag.Parse makes of the defaults on a command line: it sets them, or it ends the program with
-- an exit code.
pub data CommandLine : Type 0 where
  set : Config → CommandLine
  exits : ℕ → CommandLine

-- Parse returns, or the program has ended in it.
pub data Parsed : Type 0 where
  returned : Result Config → Parsed
  exited : ℕ → Parsed

abbrev pub parsed : CommandLine → Parsed
parsed (set cfg) = returned (checked cfg (validate cfg))
parsed (exits code) = exited code

-- `flags` is flag.Parse on the command line at hand.
unfoldable pub parse : (Config → CommandLine) → Parsed
parse flags = parsed (flags default_config)
