-- ===== src/Startup.antt =====
-- cmd/controller/main.go: main, with the manager of controller-runtime as a parameter. `new_manager`
-- stands for ctrl.GetConfigOrDie and ctrl.NewManager.
pub mod Options
pub mod Exits
use k8s_drain_surge.Base.{
  ℕ, String, Bool, true, false, Option, none, some, List, [], ◌∷◌, ◌++◌, ◌==◌, if◌then◌else◌,
}
use k8s_drain_surge.Errors.{Error, Result, ok, err, wrapped}
use k8s_drain_surge.Config.{Config, CommandLine, Parsed, returned, exited, parse}
use k8s_drain_surge.Session.{Exec, pure, attempt, ◌>>=◌, ◌>>◌}
use k8s_drain_surge.Manager
use k8s_drain_surge.Manager.{Manager, Registration, health_check, ready_check}
use k8s_drain_surge.NodeController.Abort.{NodeReconciler}
use k8s_drain_surge.NodeController.Orphans
use k8s_drain_surge.NodeController.Setup.{node_setup_with_manager}
use k8s_drain_surge.RolloutController.Abort.{RolloutReconciler}
use k8s_drain_surge.RolloutController.Setup.{rollout_setup_with_manager}
use k8s_drain_surge.RolloutController.Watch
use k8s_drain_surge.Startup.Options.{manager_options}

-- What main leaves behind: what the manager has taken, whether main has come to the recovery scans
-- and the start of the manager, and the exit code.
pub record Launch : Type 0 where
  pub registered : List Registration
  pub started : Bool
  pub exit_code : ℕ

abbrev pub node_reconciler : Manager → Config → NodeReconciler
node_reconciler m cfg = record { client = m.client; config = cfg }

-- restartReconciler, which stays nil without the flag
abbrev pub restart_reconciler : Manager → Config → Option RolloutReconciler
restart_reconciler m cfg =
    if cfg.restart_surge_enabled
    then some (record { client = m.client; config = cfg; now = none })
    else none

abbrev pub restart_registrations : Option RolloutReconciler → List (String × Registration)
restart_registrations none = []
restart_registrations (some r) = rollout_setup_with_manager r

-- Everything that main registers before the start, in its order; the texts are those of the errors.
abbrev pub registrations : Manager → Config → List (String × Registration)
registrations m cfg =
    ("", health_check "healthz")
    ∷ ("", ready_check "readyz")
    ∷ (node_setup_with_manager ++ restart_registrations (restart_reconciler m cfg))

-- The registrations up to the first that fails, and whether one fails.
unfoldable pub register_all :
    (Registration → Result (Unit {0})) → List (String × Registration) → List Registration × Bool
register_all register [] = ([], true)
register_all register ((text, reg) ∷ regs) =
    let (later, done_all) = register_all register regs in
    elim (register reg) [ ok _ ↦ (reg ∷ later, done_all) | err _ ↦ ([], false) ]

abbrev pub exit_status : Result (Unit {0}) → ℕ
exit_status (ok _) = 0
exit_status (err _) = 1

abbrev launched : Manager → List Registration × Bool → Launch
launched m (regs, true) = record {
  registered = regs;
  started = true;
  exit_code = exit_status m.start;
}
launched m (regs, false) = record { registered = regs; started = false; exit_code = 1 }

abbrev failed : Launch
failed = record { registered = []; started = false; exit_code = 1 }

abbrev pub with_manager : Config → Result Manager → Launch
with_manager cfg (err _) = failed
with_manager cfg (ok m) = launched m (register_all m.register (registrations m cfg))

module _ (flags : Config → CommandLine) (new_manager : Manager.Options → Result Manager) where
  abbrev pub with_config : Parsed → Launch
  with_config (exited code) = record { registered = []; started = false; exit_code = code }
  with_config (returned (err _)) = failed
  with_config (returned (ok cfg)) = with_manager cfg (new_manager (manager_options cfg))

  unfoldable pub main : Launch
  main = with_config (parse flags)

-- The goroutine that waits for the election: both scans, and their errors are logged only.
unfoldable pub recover_all : NodeReconciler → Option RolloutReconciler → Exec (Unit {0})
recover_all r none = do attempt (Orphans.recover_orphans r); pure tt
recover_all r (some rr) = do
  attempt (Orphans.recover_orphans r)
  attempt (Watch.recover_orphans rr)
  pure tt
