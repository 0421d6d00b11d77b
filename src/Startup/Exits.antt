-- ===== src/Startup/Exits.antt =====
-- The exit code of main.
use k8s_drain_surge.Base.{
  String, ◌≡◌, ◌↔◌, refl, Bool, true, false, List, [], ◌∷◌, arith, some, none, if◌then◌else◌,
}
use k8s_drain_surge.Errors.{Result, ok, err}
use k8s_drain_surge.Config.{
  Config, CommandLine, set, exits, parse, parsed, validate, default_config,
}
use k8s_drain_surge.Config.Validation.{IsValid, validate-iff-IsValid}
use k8s_drain_surge.Manager.{
  Options, Manager, Registration, health_check, ready_check, pod_index, rollout_index,
  deployment_index, controller,
}
use k8s_drain_surge.Workload.{rollout, deployment, annotations}
use k8s_drain_surge.NodeController.Orphans.{index_by_drain_node_annotation}
use k8s_drain_surge.NodeController.Setup.{
  index_workload_drain_node, index_by_node_name, node_watches, node_setup_with_manager,
}
use k8s_drain_surge.RolloutController.Setup.{rollout_watches, rollout_setup_with_manager}
use k8s_drain_surge.Base.Lists.{All}
use k8s_drain_surge.Startup.{
  main, with_config, with_manager, launched, registrations, restart_registrations, register_all,
}
use k8s_drain_surge.RolloutController.Abort.{RolloutReconciler}
use k8s_drain_surge.Startup.Options.{manager_options}

-- The manager takes this registration.
abbrev pub IsTaken : (Registration → Result (Unit {0})) → String × Registration → Type 0
IsTaken register (text, reg) = register reg ≡ ok tt

register_all_iff :
    (register : Registration → Result (Unit {0})) (regs : List (String × Registration))
    → ((register_all register regs).1 ≡ true) ↔ All (IsTaken register) regs
unfolding register_all
register_all_iff register [] = ((λ h. tt), (λ h. refl))
register_all_iff register ((text, reg) ∷ regs) =
    on_answer (register reg) refl (register_all_iff register regs)
  where
    on_answer :
        (answer : Result (Unit {0}))
        → register reg ≡ answer
        → ((register_all register regs).1 ≡ true) ↔ All (IsTaken register) regs
        → ((register_all register ((text, reg) ∷ regs)).1 ≡ true)
          ↔ All (IsTaken register) ((text, reg) ∷ regs)
    on_answer (ok u) answered later =
        rw (answered, register_all) ((λ h. (refl, later.0 h)), (λ h. later.1 h.1))
    on_answer (err e) answered later = rw (answered, register_all) ((λ h. cc), (λ h. cc))

-- The manager takes the checks, the indexes and the node reconciler, and with restart-surges enabled
-- the rollout reconciler, and it ends without an error.
pub record IsSmooth (cfg : Config) (m : Manager) : Type 0 where
  pub health : m.register (health_check "healthz") ≡ ok tt
  pub ready : m.register (ready_check "readyz") ≡ ok tt
  pub pods_indexed : m.register (pod_index "spec.nodeName" index_by_node_name) ≡ ok tt
  pub rollouts_indexed :
      m.register (
        rollout_index index_workload_drain_node
          (λ ro. index_by_drain_node_annotation (annotations (rollout ro))))
      ≡ ok tt
  pub deployments_indexed :
      m.register (
        deployment_index index_workload_drain_node
          (λ d. index_by_drain_node_annotation (annotations (deployment d))))
      ≡ ok tt
  pub node_controller : m.register (controller node_watches 5) ≡ ok tt
  pub rollout_controller :
      cfg.restart_surge_enabled ≡ true
      → m.register
          (controller (rollout_watches (record { client = m.client; config = cfg; now = none })) 5)
        ≡ ok tt
  pub ends : m.start ≡ ok tt

-- The rollout reconciler is registered only where it is enabled.
restart_iff :
    (register : Registration → Result (Unit {0})) (enabled : Bool) (r : RolloutReconciler)
    → All (IsTaken register) (restart_registrations (if enabled then some r else none))
      ↔ (enabled ≡ true → register (controller (rollout_watches r) 5) ≡ ok tt)
unfolding rollout_setup_with_manager
restart_iff register true r = ((λ h on. h.0), (λ k. (k refl, tt)))
restart_iff register false r = ((λ h on. cc), (λ k. tt))

IsSmooth-iff :
    (cfg : Config) (m : Manager)
    → (All (IsTaken m.register) (registrations m cfg) × (m.start ≡ ok tt)) ↔ IsSmooth cfg m
unfolding node_setup_with_manager
IsSmooth-iff cfg m =
    let restart =
      restart_iff m.register cfg.restart_surge_enabled
        (record { client = m.client; config = cfg; now = none }) in
    (
      (λ h.
          let (health, (ready, (pods, (ros, (ds, (nodes, rest)))))) = h.0 in
          record {
            health = health;
            ready = ready;
            pods_indexed = pods;
            rollouts_indexed = ros;
            deployments_indexed = ds;
            node_controller = nodes;
            rollout_controller = restart.0 rest;
            ends = h.1;
          }),
      (λ k. (
        (
          k.health,
          (
            k.ready,
            (
              k.pods_indexed,
              (
                k.rollouts_indexed,
                (k.deployments_indexed, (k.node_controller, restart.1 k.rollout_controller)),
              ),
            ),
          ),
        ),
        k.ends,
      )),
    )

launched_iff :
    (m : Manager) (p : List Registration × Bool)
    → ((launched m p).exit_code ≡ 0) ↔ ((p.1 ≡ true) × (m.start ≡ ok tt))
launched_iff m (regs, false) = ground arith
launched_iff m (regs, true) = on_end m.start refl
  where
    on_end :
        (r : Result (Unit {0}))
        → m.start ≡ r
        → ((launched m (regs, true)).exit_code ≡ 0) ↔ ((true ≡ true) × (m.start ≡ ok tt))
    on_end (ok u) e = rw e ((λ h. (refl, refl)), (λ h. refl))
    on_end (err x) e = rw e (ground arith)

-- A manager could be made, and it ends well.
abbrev pub ManagerRuns : Config → Result Manager → Type 0
ManagerRuns cfg (err _) = ⊥
ManagerRuns cfg (ok m) = IsSmooth cfg m

-- The command line ends the program with 0, or it gives a valid configuration, and the manager that
-- is made with its options ends well.
abbrev pub Runs : (Options → Result Manager) → CommandLine → Type 0
Runs new_manager (exits code) = code ≡ 0
Runs new_manager (set cfg) = IsValid cfg × ManagerRuns cfg (new_manager (manager_options cfg))

with_manager_iff :
    (cfg : Config) (answer : Result Manager)
    → ((with_manager cfg answer).exit_code ≡ 0) ↔ ManagerRuns cfg answer
with_manager_iff cfg (err e) = ground arith
with_manager_iff cfg (ok m) =
    let ended = launched_iff m (register_all m.register (registrations m cfg)) in
    let taken = register_all_iff m.register (registrations m cfg) in
    let smooth = IsSmooth-iff cfg m in
    (
      (λ h. smooth.0 (taken.0 (ended.0 h).0, (ended.0 h).1)),
      (λ h. let (all, ends) = smooth.1 h in ended.1 (taken.1 all, ends)),
    )

with_config_iff :
    (flags : Config → CommandLine) (new_manager : Options → Result Manager) (line : CommandLine)
    → ((with_config flags new_manager (parsed line)).exit_code ≡ 0) ↔ Runs new_manager line
with_config_iff flags new_manager (exits code) = ((λ h. h), (λ h. h))
with_config_iff flags new_manager (set cfg) = on_validated (validate cfg) refl
  where
    on_validated :
        (answer : Result (Unit {0}))
        → validate cfg ≡ answer
        → ((with_config flags new_manager (parsed (set cfg))).exit_code ≡ 0)
          ↔ Runs new_manager (set cfg)
    on_validated (ok tt) e =
        let end = with_manager_iff cfg (new_manager (manager_options cfg)) in
        rw e ((λ h. ((validate-iff-IsValid cfg).0 e, end.0 h)), (λ h. end.1 h.1))
    on_validated (err x) e =
        rw e ((λ h. ground (arith, h)), (λ h. ground (arith, e, (validate-iff-IsValid cfg).1 h.0)))

-- main ends with the exit code 0 exactly if flag.Parse ends the program with that code, or the flags
-- make a valid configuration, a manager can be made with its options, the manager takes the two
-- checks, the three indexes and the node reconciler with its watches, and the rollout reconciler with
-- its watches where restart-surges are enabled, and it ends without an error.
pub main-exit_iff :
    (flags : Config → CommandLine) (new_manager : Options → Result Manager)
    → ((main flags new_manager).exit_code ≡ 0) ↔ Runs new_manager (flags default_config)
unfolding main parse
main-exit_iff flags new_manager = with_config_iff flags new_manager (flags default_config)
