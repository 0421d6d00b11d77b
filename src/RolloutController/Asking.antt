-- ===== src/RolloutController/Asking.antt =====
-- Which objects make the rollout reconciler look at a Rollout.
use k8s_drain_surge.Base.{
  String, ◌≡◌, ◌≢◌, ◌↔◌, ◌⊎◌, inl, inr, refl, ap, true, Option, none, some, List, [], ◌∷◌, ◌++◌,
  arith, eq_iff, Bool-cases, if◌then◌else◌,
}
use k8s_drain_surge.Base.Int.{eqb_ℤ_iff}
use k8s_drain_surge.Base.Maps.{get}
use k8s_drain_surge.Errors.{Result, ok, err}
use k8s_drain_surge.State.{annotation_restart_surge_state}
use k8s_drain_surge.Kube.{Rollout, Pod, Time}
use k8s_drain_surge.Session.{Session, ◌>>=◌}
use k8s_drain_surge.Workload.{Workload, rollout, deployment, annotations}
use k8s_drain_surge.Scaler.{resolve_workload_from_pod}
use k8s_drain_surge.Base.Lists.{Any}
use k8s_drain_surge.Scaler.Owners.Chain.{IsOwnedBy, resolve_workload_from_pod_iff}
use k8s_drain_surge.Manager.{
  Request, Object, node_object, pod_object, rollout_object, deployment_object, requested,
}
use k8s_drain_surge.RolloutController.Abort.{RolloutReconciler}
use k8s_drain_surge.RolloutController.Handlers.{restart_pending}
use k8s_drain_surge.RolloutController.Watch.{rollout_relevant, rollout_requests, map_pod_to_rollout}
use k8s_drain_surge.RolloutController.Setup.{rollout_watches}
use k8s_drain_surge.RolloutController.Recovering.{IsWaiting}

-- The Rollout records a restart-surge, or is opted in and waits for a restart.
abbrev pub IsRelevant : String → Rollout → Type 0
IsRelevant enabled_annotation ro =
    (get (annotations (rollout ro)) annotation_restart_surge_state ≢ "")
    ⊎ ((get (annotations (rollout ro)) enabled_annotation ≡ "true") × IsWaiting ro)

abbrev pub IsNamed : String → String → Rollout → Type 0
IsNamed namespace name ro = (ro.object_meta.namespace ≡ namespace) × (ro.object_meta.name ≡ name)

-- The object is this Rollout, if it is relevant, or a pod that the Rollout owns.
abbrev pub Concerns : RolloutReconciler → Session → String → String → Object → Type 0
Concerns r s namespace name (rollout_object ro) =
    IsRelevant r.config.enabled_annotation ro × IsNamed namespace name ro
Concerns r s namespace name (pod_object pod) =
    (ro : Rollout) × IsOwnedBy r.client pod s (rollout ro) × IsNamed namespace name ro
Concerns r s namespace name _ = ⊥

-- A request for the Rollout of this name.
abbrev pub Asks : String → String → List Request → Type 0
Asks namespace name requests = Any (λ q. q ≡ (namespace, name)) requests

restart_pending_iff : (ro : Rollout) → (restart_pending ro ≡ true) ↔ IsWaiting ro
restart_pending_iff ro = at ro.restart_at refl ro.restarted_at refl
  where
    at :
        (asked : Option Time)
        → ro.restart_at ≡ asked
        → (reached : Option Time) → ro.restarted_at ≡ reached
        → (restart_pending ro ≡ true) ↔ IsWaiting ro
    at none a reached d = (λ h. absurd (ground (arith, a, h)), λ w. absurd (ground (arith, a, w.1)))
    at (some t) a none d = (λ h. (t, a, ground (arith, d)), λ w. ground (arith, a, d))
    at (some t) a (some u) d = (
      λ h. (t, a, ground (arith, a, d, h, eqb_ℤ_iff u t)),
      λ w. ground (arith, a, d, w.1, w.2, eqb_ℤ_iff u t),
    )

rollout_relevant_iff :
    (enabled_annotation : String) (ro : Rollout)
    → (rollout_relevant enabled_annotation ro ≡ true) ↔ IsRelevant enabled_annotation ro
unfolding rollout_relevant
rollout_relevant_iff enabled_annotation ro = ground (
  arith,
  eq_iff (get (annotations (rollout ro)) annotation_restart_surge_state) "",
  eq_iff (get (annotations (rollout ro)) enabled_annotation) "true",
  restart_pending_iff ro,
)

asked_iff :
    (namespace name : String) (ro : Rollout)
    → Asks namespace name ((ro.object_meta.namespace, ro.object_meta.name) ∷ [])
      ↔ IsNamed namespace name ro
asked_iff namespace name ro = (forth, λ n. inl (λ i. (n.0 i, n.1 i)))
  where
    forth :
        Asks namespace name ((ro.object_meta.namespace, ro.object_meta.name) ∷ [])
        → IsNamed namespace name ro
    forth (inl p) = (ap (λ q. q.0) p, ap (λ q. q.1) p)
    forth (inr none_left) = elim none_left [ ]

module _ (r : RolloutReconciler) (s : Session) (namespace name : String) where
  rollout-Asks :
      (ro : Rollout)
      → Asks namespace name (
          (if rollout_relevant r.config.enabled_annotation ro
            then (ro.object_meta.namespace, ro.object_meta.name) ∷ []
            else [])
          ++ [])
        ↔ Concerns r s namespace name (rollout_object ro)
  rollout-Asks ro = elim (Bool-cases (rollout_relevant r.config.enabled_annotation ro)) [
    | inl relevant ↦ rw relevant (
      (λ asked. (
        (rollout_relevant_iff r.config.enabled_annotation ro).0 relevant,
        (asked_iff namespace name ro).0 asked,
      )),
      (λ concerned. (asked_iff namespace name ro).1 concerned.1),
    )
    | inr dropped ↦ rw dropped (
      (λ asked. elim asked [ ]),
      (λ concerned. absurd (
          ground
            (arith, dropped, (rollout_relevant_iff r.config.enabled_annotation ro).1 concerned.0))),
    )
  ]

  pod-Asks :
      (pod : Pod) (answer : Result (Option Workload))
      → (resolve_workload_from_pod r.client pod s).0 ≡ answer
      → Asks namespace name (rollout_requests answer ++ [])
        ↔ Concerns r s namespace name (pod_object pod)
  pod-Asks pod (ok (some (rollout ro))) e = (
    (λ asked. (
      ro,
      (resolve_workload_from_pod_iff r.client pod s (rollout ro)).0 e,
      (asked_iff namespace name ro).0 asked,
    )),
    (λ owned. (asked_iff namespace name ro).1 (
        ground (
          arith,
          e,
          owned.2,
          (resolve_workload_from_pod_iff r.client pod s (rollout owned.0)).1 owned.1,
        ))),
  )
  pod-Asks pod (ok (some (deployment d))) e = (
    (λ asked. elim asked [ ]),
    (λ owned. absurd (
        ground
          (arith, e, (resolve_workload_from_pod_iff r.client pod s (rollout owned.0)).1 owned.1))),
  )
  pod-Asks pod (ok none) e = (
    (λ asked. elim asked [ ]),
    (λ owned. absurd (
        ground
          (arith, e, (resolve_workload_from_pod_iff r.client pod s (rollout owned.0)).1 owned.1))),
  )
  pod-Asks pod (err x) e = (
    (λ asked. elim asked [ ]),
    (λ owned. absurd (
        ground
          (arith, e, (resolve_workload_from_pod_iff r.client pod s (rollout owned.0)).1 owned.1))),
  )

  -- Given an object, the functions that SetupWithManager registers ask the rollout reconciler to look
  -- at a Rollout exactly if the object is that Rollout, with a restart-surge or opted in and waiting
  -- for a restart, or a pod whose owner chain leads to it.
  pub rollout_watches-Asks :
      (o : Object)
      → (requests : List Request) × ((requested (rollout_watches r) o s).0 ≡ ok requests)
        × (Asks namespace name requests ↔ Concerns r s namespace name o)
  unfolding requested rollout_watches map_pod_to_rollout ◌>>=◌
  rollout_watches-Asks (node_object node) =
      ([], refl, ((λ asked. elim asked [ ]), (λ none_left. elim none_left [ ])))
  rollout_watches-Asks (pod_object pod) = (_, refl, pod-Asks pod _ refl)
  rollout_watches-Asks (rollout_object ro) = (_, refl, rollout-Asks ro)
  rollout_watches-Asks (deployment_object d) =
      ([], refl, ((λ asked. elim asked [ ]), (λ none_left. elim none_left [ ])))
