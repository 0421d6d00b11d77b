-- ===== src/Startup/Options.antt =====
-- The options that main gives to the manager.
use k8s_drain_surge.Config.{Config}
use k8s_drain_surge.State.{controller_name}
use k8s_drain_surge.Manager.{Options}
use Prim.Native.String.{◌++◌}

abbrev pub manager_options : Config → Options
manager_options cfg = record {
  leader_election = cfg.leader_elect;
  leader_election_id = controller_name ++ "-leader";
  health_probe_bind_address = cfg.health_addr;
  metrics_bind_address = cfg.metrics_addr;
}
