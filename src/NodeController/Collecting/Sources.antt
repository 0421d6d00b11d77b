-- ===== src/NodeController/Collecting/Sources.antt =====
-- Which keys the loop of Reconcile over the pods of a node finds.
use k8s_drain_surge.Base.{
  String, ◌≡◌, ◌≢◌, ◌↔◌, ◌⊎◌, inl, inr, refl, true, false, ◌||◌, Option, none, some, List, [], ◌∷◌,
  arith, eq_iff, Bool-cases, if◌then◌else◌,
}
use k8s_drain_surge.Errors.{Result, ok, err}
use k8s_drain_surge.Kube.{Pod}
use k8s_drain_surge.Session.{Session, ◌>>=◌}
use k8s_drain_surge.Workload.{Workload}
use k8s_drain_surge.Scaler.{resolve_workload_from_pod, is_finished, is_pod_terminating}
use k8s_drain_surge.Scaler.Owners.Chain.{IsOwnedBy, resolve_workload_from_pod_iff}
use k8s_drain_surge.NodeController.Abort.{NodeReconciler, key_of}
use k8s_drain_surge.NodeController.Reconcile.{has_key, add_resolved, collect}
use k8s_drain_surge.NodeController.Collecting.{has_key-add_workload}

-- A pod that counts: neither succeeded, failed nor terminating.
pub record IsLive (pod : Pod) : Type 0 where
  pub unfinished : (pod.phase ≢ "Succeeded") × (pod.phase ≢ "Failed")
  pub live : is_pod_terminating pod ≡ false

module _ (r : NodeReconciler) where
  -- The session after the loop has dealt with a pod.
  abbrev pub after_pod : Pod → Session → Session
  after_pod pod s =
      if is_finished pod || is_pod_terminating pod
      then s
      else (resolve_workload_from_pod r.client pod s).1

  -- The owner chain of one of the pods that count leads to a workload with this key.
  abbrev pub Leads : List Pod → Session → String → Type 0
  Leads [] s k = ⊥
  Leads (pod ∷ pods) s k =
      (IsLive pod × ((wl : Workload) × IsOwnedBy r.client pod s wl × (key_of wl ≡ k)))
      ⊎ Leads pods (after_pod pod s) k

-- The key is one of those that the lookup of the drains has found.
abbrev pub Holds : Result (List (String × Workload)) → String → Type 0
Holds (ok ws) k = has_key k ws ≡ true
Holds (err _) k = ⊥

has_key-add_resolved :
    (answer : Result (Option Workload)) (ws : List (String × Workload)) (k : String)
    → (has_key k (add_resolved answer ws) ≡ true)
      ↔ ((has_key k ws ≡ true) ⊎ ((wl : Workload) × (answer ≡ ok (some wl)) × (key_of wl ≡ k)))
has_key-add_resolved (ok (some wl)) ws k =
    let added = has_key-add_workload k (key_of wl) wl ws in
    (
      (λ h. elim (Bool-cases (has_key k ws)) [
        | inl there ↦ inl there
        | inr absent ↦ inr (wl, refl, ground (arith, h, absent, added, eq_iff (key_of wl) k))
      ]),
      (λ k'. elim k' [
        | inl there ↦ ground (arith, there, added)
        | inr (w, e, same) ↦
            let here : key_of wl ≡ k = cc (e, same) in
            ground (arith, added, eq_iff (key_of wl) k, here)
      ]),
    )
has_key-add_resolved (ok none) ws k =
    ((λ h. inl h), (λ k'. elim k' [ inl there ↦ there | inr (w, e, same) ↦ cc e ]))
has_key-add_resolved (err x) ws k =
    ((λ h. inl h), (λ k'. elim k' [ inl there ↦ there | inr (w, e, same) ↦ cc e ]))

counts_iff : (pod : Pod) → ((is_finished pod || is_pod_terminating pod) ≡ false) ↔ IsLive pod
counts_iff pod = (
  (λ h. record {
    unfinished = (
      (λ e. ground (arith, h, e, eq_iff pod.phase "Succeeded")),
      (λ e. ground (arith, h, e, eq_iff pod.phase "Failed")),
    );
    live = ground (arith, h);
  }),
  (λ c. ground (arith, c, eq_iff pod.phase "Succeeded", eq_iff pod.phase "Failed")),
)

module _ (r : NodeReconciler) where
  pub collect-Leads :
      (pods : List Pod) (ws found : List (String × Workload)) (s : Session) (k : String)
      → (collect r pods ws s).0 ≡ ok found
      → (has_key k found ≡ true) ↔ ((has_key k ws ≡ true) ⊎ Leads r pods s k)
  unfolding collect ◌>>=◌
  collect-Leads [] ws found s k h = (
    (λ there. inl (ground (arith, h, there))),
    (λ k'. elim k' [ inl there ↦ ground (arith, h, there) | inr none_left ↦ elim none_left [ ] ]),
  )
  collect-Leads (pod ∷ pods) ws found s k h =
      elim (Bool-cases (is_finished pod || is_pod_terminating pod)) [
        | inl skip ↦
            let rest = collect-Leads pods ws found s k (rw skip at h) in
            rw skip (
              (λ there. elim (rest.0 there) [ inl old ↦ inl old | inr leads ↦ inr (inr leads) ]),
              (λ k'. elim k' [
                | inl old ↦ rest.1 (inl old)
                | inr (inl (counts, _)) ↦ absurd (ground (arith, skip, (counts_iff pod).1 counts))
                | inr (inr leads) ↦ rest.1 (inr leads)
              ]),
            )
        | inr counted ↦
            let answer = (resolve_workload_from_pod r.client pod s).0 in
            let rest =
              collect-Leads pods (add_resolved answer ws) found
                (resolve_workload_from_pod r.client pod s).1 k (rw counted at h) in
            let here = has_key-add_resolved answer ws k in
            rw counted (
              (λ there. elim (rest.0 there) [
                | inl added ↦ elim (here.0 added) [
                  | inl old ↦ inl old
                  | inr (wl, e, same) ↦ inr (
                      inl (
                        (counts_iff pod).0 counted,
                        (wl, (resolve_workload_from_pod_iff r.client pod s wl).0 e, same),
                      ))
                ]
                | inr leads ↦ inr (inr leads)
              ]),
              (λ k'. elim k' [
                | inl old ↦ rest.1 (inl (here.1 (inl old)))
                | inr (inl (counts, (wl, owned, same))) ↦ rest.1 (
                    inl (
                      here.1 (
                        inr (wl, (resolve_workload_from_pod_iff r.client pod s wl).1 owned, same))))
                | inr (inr leads) ↦ rest.1 (inr leads)
              ]),
            )
      ]
