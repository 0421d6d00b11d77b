-- ===== src/Manager.antt =====
-- The part of controller-runtime that the program registers itself with. Nothing here is code of the
-- repository: a manager is a parameter, known by what it answers to a registration and to its start.
use k8s_drain_surge.Base.{ℕ, String, Bool, List, [], ◌∷◌, ◌++◌}
use k8s_drain_surge.Errors.{Result}
use k8s_drain_surge.Kube.{Api, Node, Pod, Rollout, Deployment}
use k8s_drain_surge.Session.{Exec, pure, ◌>>=◌}

-- reconcile.Request: the namespace and the name of the object to reconcile.
abbrev pub Request : Type 0
Request = String × String

-- For and Watches of the controller builder: the function that says what an object of a kind asks for.
pub data Watch : Type 0 where
  nodes : (Node → Exec (List Request)) → Watch
  pods : (Pod → Exec (List Request)) → Watch
  rollouts : (Rollout → Exec (List Request)) → Watch
  deployments : (Deployment → Exec (List Request)) → Watch

pub data Object : Type 0 where
  node_object : Node → Object
  pod_object : Pod → Object
  rollout_object : Rollout → Object
  deployment_object : Deployment → Object

pub data Registration : Type 0 where
  health_check ready_check : String → Registration
  -- GetFieldIndexer().IndexField, for each kind of object
  pod_index : String → (Pod → List String) → Registration
  rollout_index : String → (Rollout → List String) → Registration
  deployment_index : String → (Deployment → List String) → Registration
  -- Complete, with the watches and MaxConcurrentReconciles
  controller : List Watch → ℕ → Registration

-- ctrl.Options
pub record Options : Type 0 where
  pub leader_election : Bool
  pub leader_election_id : String
  pub health_probe_bind_address : String
  pub metrics_bind_address : String

-- `start` is what mgr.Start returns once the manager has ended.
pub record Manager : Type 0 where
  pub client : Api
  pub register : Registration → Result (Unit {0})
  pub start : Result (Unit {0})

-- What the function of one watch answers for an object; it is given objects of its kind only.
abbrev answered : Watch → Object → Exec (List Request)
answered (nodes f) (node_object node) = f node
answered (pods f) (pod_object pod) = f pod
answered (rollouts f) (rollout_object ro) = f ro
answered (deployments f) (deployment_object d) = f d
answered _ _ = pure []

-- What the functions that are registered with these watches ask for, given one object. When they are
-- called, and on which objects of an event, is up to the manager.
unfoldable pub requested : List Watch → Object → Exec (List Request)
requested [] o = pure []
requested (w ∷ ws) o = do requests ← answered w o; more ← requested ws o; pure (requests ++ more)
