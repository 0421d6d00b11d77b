-- ===== src/Tests/Owning.antt =====
-- Witnesses for the owner chain of a pod, and for the events that the rollout reconciler hears of.
use k8s_drain_surge.Base.{◌≡◌, ◌↔◌, List, [], ◌∷◌}
use k8s_drain_surge.Errors.{ok}
use k8s_drain_surge.Kube.{Api, Pod}
use k8s_drain_surge.Manager.{Request, pod_object, requested}
use k8s_drain_surge.RolloutController.Abort.{RolloutReconciler}
use k8s_drain_surge.RolloutController.Setup.{rollout_watches}
use k8s_drain_surge.RolloutController.Asking.{Asks, Concerns, rollout_watches-Asks}
use k8s_drain_surge.Tests.{cluster, session, rollout_reconciler, pod_on, web_rollout, opted_in}

abbrev owned_pod : Pod
owned_pod = record (pod_on "n2") {
  owner_references = record { kind = "ReplicaSet"; api_version = "apps/v1"; name = "web-5f" } ∷ [];
}

-- The cluster has the ReplicaSet of the pod, and its Rollout.
abbrev owning_cluster : Api
owning_cluster = record cluster {
  get_replica_set = λ n namespace name. ok (record {
    owner_references =
        record { kind = "Rollout"; api_version = "argoproj.io/v1alpha1"; name = "web" } ∷ [];
  });
  get_rollout = λ n namespace name. ok (web_rollout opted_in);
}

abbrev owning_reconciler : RolloutReconciler
owning_reconciler = record rollout_reconciler { client = owning_cluster }

rollout_watches-Asks_example :
    (requests : List Request) × ((requested
        (rollout_watches owning_reconciler)
        (pod_object owned_pod)
        session).0
      ≡ ok requests)
    × (Asks "shop" "web" requests
        ↔ Concerns owning_reconciler session "shop" "web" (pod_object owned_pod))
rollout_watches-Asks_example =
    rollout_watches-Asks owning_reconciler session "shop" "web" (pod_object owned_pod)
