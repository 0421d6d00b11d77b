-- ===== src/RolloutController/Setup.antt =====
-- (*RolloutReconciler).SetupWithManager: the watches of the rollout reconciler.
use k8s_drain_surge.Base.{String, List, [], ◌∷◌, if◌then◌else◌}
use k8s_drain_surge.Session.{pure}
use k8s_drain_surge.Manager.{Watch, pods, rollouts, Registration, controller}
use k8s_drain_surge.RolloutController.Abort.{RolloutReconciler}
use k8s_drain_surge.RolloutController.Watch.{rollout_relevant, map_pod_to_rollout}

module _ (r : RolloutReconciler) where
  -- The builder's For, with its predicate, and Watches.
  unfoldable pub rollout_watches : List Watch
  rollout_watches =
      rollouts (λ ro. pure (
        if rollout_relevant r.config.enabled_annotation ro
        then (ro.object_meta.namespace, ro.object_meta.name) ∷ []
        else []))
      ∷ pods (map_pod_to_rollout r.client)
      ∷ []

  unfoldable pub rollout_setup_with_manager : List (String × Registration)
  rollout_setup_with_manager = ("", controller rollout_watches 5) ∷ []
