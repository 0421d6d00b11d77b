-- ===== src/Config/Validation.antt =====
-- Which configurations Validate accepts.
use k8s_drain_surge.Base.{◌≡◌, ◌≢◌, ◌↔◌, true, [], refl, ap, subst, arith, eq_iff}
use k8s_drain_surge.Base.Int.{pos, ◌<ℤ◌}
use k8s_drain_surge.Errors.{Result, ok, err}
use k8s_drain_surge.Config.{
  Config, CommandLine, set, exits, returned, validate, parse, parsed, default_config, checked,
}

-- The conditions on the flags that the messages of Validate name.
pub record IsValid (c : Config) : Type 0 where
  pub requeue_positive : pos 0 <ℤ c.requeue_interval
  pub readiness_longer : c.requeue_interval <ℤ c.readiness_timeout
  pub has_taint : c.drain_taints ≢ []
  pub has_annotation : c.enabled_annotation ≢ ""
  pub grace_positive : c.restart_surge_enabled ≡ true → pos 0 <ℤ c.restart_surge_grace_period
  pub restart_longer :
      c.restart_surge_enabled ≡ true → c.restart_surge_grace_period <ℤ c.restart_surge_timeout

validate-IsValid : (c : Config) → validate c ≡ ok tt → IsValid c
unfolding validate
validate-IsValid c h = record {
  requeue_positive = ground arith;
  readiness_longer = ground arith;
  has_taint = ground arith;
  has_annotation = ground (arith, eq_iff c.enabled_annotation "");
  grace_positive = λ on. ground arith;
  restart_longer = λ on. ground arith;
}

IsValid-validate : (c : Config) → IsValid c → validate c ≡ ok tt
unfolding validate
IsValid-validate c v = ground (arith, eq_iff c.enabled_annotation "", v)

-- Validate accepts a configuration exactly if the intervals are positive and in order, a taint and
-- an annotation key are configured, and, with restart-surge enabled, its grace period is positive
-- and shorter than its timeout.
pub validate-iff-IsValid : (c : Config) → (validate c ≡ ok tt) ↔ IsValid c
validate-iff-IsValid c = (validate-IsValid c, IsValid-validate c)

checked-ok : (c d : Config) (r : Result (Unit {0})) → checked c r ≡ ok d → (c ≡ d) × (r ≡ ok tt)
checked-ok c d (ok tt) h = (cc, refl)
checked-ok c d (err e) h = cc

parsed-ok :
    (line : CommandLine) (c : Config) → parsed line ≡ returned (ok c) → (line ≡ set c) × IsValid c
parsed-ok (exits code) c h = cc
parsed-ok (set d) c h =
    let (same, valid) = checked-ok d c (validate d) cc in
    (ap set same, validate-IsValid c (subst (λ e. validate e ≡ ok tt) same valid))

ok-parsed :
    (line : CommandLine) (c : Config) → (line ≡ set c) × IsValid c → parsed line ≡ returned (ok c)
ok-parsed line c (same, valid) = rw (same, IsValid-validate c valid) refl

-- Parse returns a configuration exactly if it is the one that the flags give and it is valid.
pub parse-iff-IsValid :
    (flags : Config → CommandLine) (c : Config)
    → (parse flags ≡ returned (ok c)) ↔ ((flags default_config ≡ set c) × IsValid c)
unfolding parse
parse-iff-IsValid flags c = (parsed-ok (flags default_config) c, ok-parsed (flags default_config) c)
