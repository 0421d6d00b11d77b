-- ===== src/Scaler/Owners.antt =====
-- The first owners of an object that the controller follows (internal/controller/scaler.go).
pub mod Chain
use k8s_drain_surge.Base.{
  ℕ, String, ◌≡◌, ◌≢◌, ◌↔◌, ◌⊎◌, inl, inr, refl, sym, subst, true, ◌&&◌, some, List, [], ◌∷◌, ◌==◌,
  arith, eq_iff, Bool-cases,
}
use k8s_drain_surge.Errors.{Result, ok, err}
use k8s_drain_surge.Kube.{Api, OwnerReference, Rollout, Deployment}
use k8s_drain_surge.Session.{Session, ◌>>=◌}
use k8s_drain_surge.Workload.{Workload, rollout, deployment}
use k8s_drain_surge.Scaler.{replica_set_owner, resolve_owner}

-- The owner has this kind and API version.
pub record IsOf (kind api_version : String) (ref : OwnerReference) : Type 0 where
  pub has_kind : ref.kind ≡ kind
  pub has_version : ref.api_version ≡ api_version

abbrev pub IsReplicaSetRef : OwnerReference → Type 0
IsReplicaSetRef ref = IsOf "ReplicaSet" "apps/v1" ref

abbrev pub IsRolloutRef : OwnerReference → Type 0
IsRolloutRef ref = IsOf "Rollout" "argoproj.io/v1alpha1" ref

abbrev pub IsDeploymentRef : OwnerReference → Type 0
IsDeploymentRef ref = IsOf "Deployment" "apps/v1" ref

-- The first element of the list with the property.
abbrev pub First : {A : Type 0} → (A → Type 0) → List A → A → Type 0
First P [] a = ⊥
First P (x ∷ xs) a = (P x × (x ≡ a)) ⊎ ((¬ P x) × First P xs a)

IsOf-iff :
    (kind api_version : String) (ref : OwnerReference)
    → ((ref.kind == kind && ref.api_version == api_version) ≡ true) ↔ IsOf kind api_version ref
IsOf-iff kind api_version ref =
    ground (arith, eq_iff ref.kind kind, eq_iff ref.api_version api_version)

replica_set_test :
    (ref : OwnerReference)
    → ((ref.kind == "ReplicaSet" && ref.api_version == "apps/v1") ≡ true) ↔ IsReplicaSetRef ref
replica_set_test = IsOf-iff "ReplicaSet" "apps/v1"

rollout_test :
    (ref : OwnerReference)
    → ((ref.kind == "Rollout" && ref.api_version == "argoproj.io/v1alpha1") ≡ true)
      ↔ IsRolloutRef ref
rollout_test = IsOf-iff "Rollout" "argoproj.io/v1alpha1"

deployment_test :
    (ref : OwnerReference)
    → ((ref.kind == "Deployment" && ref.api_version == "apps/v1") ≡ true) ↔ IsDeploymentRef ref
deployment_test = IsOf-iff "Deployment" "apps/v1"

pub replica_set_owner-First :
    (refs : List OwnerReference)
    → replica_set_owner refs ≢ ""
    → (ref : OwnerReference) × First IsReplicaSetRef refs ref × (ref.name ≡ replica_set_owner refs)
unfolding replica_set_owner
replica_set_owner-First [] named = absurd (named refl)
replica_set_owner-First (x ∷ refs) named =
    elim (Bool-cases (x.kind == "ReplicaSet" && x.api_version == "apps/v1")) [
      | inl hit ↦ (x, inl ((IsOf-iff _ _ x).0 hit, refl), rw hit refl)
      | inr miss ↦
          let (ref, first, e) = replica_set_owner-First refs (rw miss at named) in
          (ref, inr (ground (arith, miss, replica_set_test x), first), rw miss e)
    ]

pub First-replica_set_owner :
    (refs : List OwnerReference) (ref : OwnerReference)
    → First IsReplicaSetRef refs ref
    → replica_set_owner refs ≡ ref.name
unfolding replica_set_owner
First-replica_set_owner [] ref first = elim first [ ]
First-replica_set_owner (x ∷ refs) ref (inl (hit, e)) = ground (arith, hit, e, replica_set_test x)
First-replica_set_owner (x ∷ refs) ref (inr (miss, first)) =
    ground (arith, miss, replica_set_test x, First-replica_set_owner refs ref first)

-- An owner that is drained and restarted by the controller.
abbrev pub IsSupported : OwnerReference → Type 0
IsSupported ref = IsRolloutRef ref ⊎ IsDeploymentRef ref

module _ (c : Api) (namespace : String) where
  -- The call with this number gets the workload that the owner names.
  abbrev pub Gets : ℕ → OwnerReference → Workload → Type 0
  Gets k ref wl =
      (IsRolloutRef ref
        × ((ro : Rollout) × (c.get_rollout k namespace ref.name ≡ ok ro) × (wl ≡ rollout ro)))
      ⊎ (IsDeploymentRef ref
          × ((d : Deployment) × (c.get_deployment k namespace ref.name ≡ ok d)
              × (wl ≡ deployment d)))

  rollout_got :
      (x : OwnerReference) (refs : List OwnerReference) (s : Session) (wl : Workload)
      → IsRolloutRef x
      → (resolve_owner c namespace (x ∷ refs) s).0 ≡ ok (some wl)
      → (ro : Rollout) × (c.get_rollout s.calls namespace x.name ≡ ok ro) × (wl ≡ rollout ro)
  unfolding resolve_owner ◌>>=◌
  rollout_got x refs s wl hit h = at (c.get_rollout s.calls namespace x.name) refl
    where
      at :
          (answer : Result Rollout)
          → c.get_rollout s.calls namespace x.name ≡ answer
          → (ro : Rollout) × (c.get_rollout s.calls namespace x.name ≡ ok ro) × (wl ≡ rollout ro)
      at (ok ro) e = (ro, e, ground (arith, e, h, hit, rollout_test x))
      at (err f) e = absurd (ground (arith, e, h, hit, rollout_test x))

  deployment_got :
      (x : OwnerReference) (refs : List OwnerReference) (s : Session) (wl : Workload)
      → ¬ IsRolloutRef x
      → IsDeploymentRef x
      → (resolve_owner c namespace (x ∷ refs) s).0 ≡ ok (some wl)
      → (d : Deployment) × (c.get_deployment s.calls namespace x.name ≡ ok d) × (wl ≡ deployment d)
  unfolding resolve_owner ◌>>=◌
  deployment_got x refs s wl other hit h = at (c.get_deployment s.calls namespace x.name) refl
    where
      at :
          (answer : Result Deployment)
          → c.get_deployment s.calls namespace x.name ≡ answer
          → (d : Deployment) × (c.get_deployment s.calls namespace x.name ≡ ok d)
            × (wl ≡ deployment d)
      at (ok d) e = (d, e, ground (arith, e, h, hit, other, rollout_test x, deployment_test x))
      at (err f) e = absurd (ground (arith, e, h, hit, other, rollout_test x, deployment_test x))

  resolve_owner_skips :
      (x : OwnerReference) (refs : List OwnerReference) (s : Session)
      → ¬ IsRolloutRef x
      → ¬ IsDeploymentRef x
      → resolve_owner c namespace (x ∷ refs) s ≡ resolve_owner c namespace refs s
  unfolding resolve_owner
  resolve_owner_skips x refs s other neither =
      ground (arith, other, neither, rollout_test x, deployment_test x)

  pub resolve_owner-First :
      (refs : List OwnerReference) (s : Session) (wl : Workload)
      → (resolve_owner c namespace refs s).0 ≡ ok (some wl)
      → (ref : OwnerReference) × First IsSupported refs ref × Gets s.calls ref wl
  resolve_owner-First [] s wl h = absurd (unfold resolve_owner ◌>>=◌ in ground (arith, h))
  resolve_owner-First (x ∷ refs) s wl h =
      elim (Bool-cases (x.kind == "Rollout" && x.api_version == "argoproj.io/v1alpha1")) [
        | inl hit ↦
            let ref = (IsOf-iff _ _ x).0 hit in
            (x, inl (inl ref, refl), inl (ref, rollout_got x refs s wl ref h))
        | inr miss ↦
            let other : ¬ IsRolloutRef x = ground (arith, miss, rollout_test x) in
            elim (Bool-cases (x.kind == "Deployment" && x.api_version == "apps/v1")) [
              | inl hit ↦
                  let ref = (IsOf-iff _ _ x).0 hit in
                  (x, inl (inr ref, refl), inr (ref, deployment_got x refs s wl other ref h))
              | inr neither ↦
                  let no_deployment : ¬ IsDeploymentRef x =
                    ground (arith, neither, deployment_test x) in
                  let (ref, first, gets) =
                    resolve_owner-First refs s wl
                      (rw (sym (resolve_owner_skips x refs s other no_deployment)) h) in
                  (
                    ref,
                    inr ((λ p. elim p [ inl q ↦ other q | inr q ↦ no_deployment q ]), first),
                    gets,
                  )
            ]
      ]

  head_resolves :
      (x : OwnerReference) (refs : List OwnerReference) (s : Session) (wl : Workload)
      → Gets s.calls x wl
      → (resolve_owner c namespace (x ∷ refs) s).0 ≡ ok (some wl)
  unfolding resolve_owner ◌>>=◌
  head_resolves x refs s wl (inl (ref, (ro, e, w))) = rw (ref.has_kind, ref.has_version, e, w) refl
  head_resolves x refs s wl (inr (ref, (d, e, w))) = rw (ref.has_kind, ref.has_version, e, w) refl

  pub First-resolve_owner :
      (refs : List OwnerReference) (s : Session) (wl : Workload) (ref : OwnerReference)
      → First IsSupported refs ref
      → Gets s.calls ref wl
      → (resolve_owner c namespace refs s).0 ≡ ok (some wl)
  First-resolve_owner [] s wl ref first gets = elim first [ ]
  First-resolve_owner (x ∷ refs) s wl ref (inl (hit, e)) gets =
      head_resolves x refs s wl (subst (λ y. Gets s.calls y wl) (sym e) gets)
  First-resolve_owner (x ∷ refs) s wl ref (inr (miss, first)) gets =
      rw (resolve_owner_skips x refs s (λ p. miss (inl p)) (λ p. miss (inr p)))
        (First-resolve_owner refs s wl ref first gets)
