-- ===== src/Tests/Collecting.antt =====
-- Witnesses for what Reconcile collects, and for a drain whose surge of an HPA has failed.
use k8s_drain_surge.Base.{◌≡◌, ◌≢◌, refl, List, [], ◌∷◌}
use k8s_drain_surge.Base.Maps.{get, insert}
use k8s_drain_surge.Errors.{ok}
use k8s_drain_surge.Config.{default_config}
use k8s_drain_surge.State.{DrainState, drain_state, annotation_hpa_name}
use k8s_drain_surge.Kube.{Api, Pod}
use k8s_drain_surge.Session.Keeps.{Keeps}
use k8s_drain_surge.Workload.{Workload, deployment, annotations}
use k8s_drain_surge.NodeController.Abort.{NodeReconciler}
use k8s_drain_surge.NodeController.Reconcile.{state_of, in_time, reconcile_measured}
use k8s_drain_surge.Session.{Session}
use k8s_drain_surge.NodeController.Stalling.{SparesHpas, scaled_up-SparesHpas}
use k8s_drain_surge.Tests.{pod_on, cluster, session, node_reconciler, draining_in, opted_in, web}

-- A pod of the Deployment, through a ReplicaSet.
abbrev owned_pod : Pod
owned_pod = record (pod_on "n1") {
  owner_references = record { kind = "ReplicaSet"; api_version = "apps/v1"; name = "web-1" } ∷ [];
}

abbrev owning : Api
owning = record cluster {
  list_node_pods = λ n name. ok (owned_pod ∷ owned_pod ∷ []);
  get_replica_set = λ n namespace name. ok (record {
    owner_references = record { kind = "Deployment"; api_version = "apps/v1"; name = "web" } ∷ [];
  });
  get_deployment = λ n namespace name. ok (web opted_in);
}

abbrev owning_reconciler : NodeReconciler
owning_reconciler = record { client = owning; config = default_config }

abbrev two_owned : List Pod
two_owned = owned_pod ∷ owned_pod ∷ []

abbrev first_call : Session
first_call = record session { calls = 2 }

abbrev half_surged : Workload
half_surged = deployment (web (insert annotation_hpa_name "web" (draining_in "scaled-up")))

half_surged_managed : get (annotations half_surged) annotation_hpa_name ≢ ""
half_surged_managed e = cc

half_surged_state : state_of half_surged ≡ DrainState.scaled_up
unfolding drain_state
half_surged_state = refl

scaled_up-SparesHpas_example :
    Keeps SparesHpas
      (reconcile_measured node_reconciler in_time (state_of half_surged) half_surged "n1")
scaled_up-SparesHpas_example =
    scaled_up-SparesHpas node_reconciler half_surged "n1" half_surged_managed half_surged_state
