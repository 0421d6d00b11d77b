-- ===== src/RolloutController/Safety.antt =====
-- A restart-surge moves on only when the pods allow it.
use k8s_drain_surge.Base.{
  ℕ, zero, Option, none, some, [], ◌∷◌, suc, ◌≤◌, ap, ◌∙◌, ◌≡◌, ◌≢◌, ◌⊎◌, inl, inr, refl, true,
  false, List, arith, leb, Bool-cases,
}
use k8s_drain_surge.Base.Int.{eqb_ℤ_iff}
use k8s_drain_surge.Base.Lists.{AtLeast}
use k8s_drain_surge.Errors.{Result, ok, err, wrapped, with_context}
use k8s_drain_surge.Kube.{Pod, Rollout, Time}
use k8s_drain_surge.Session.{Session, ◌>>=◌, bind_ok, bind_err, pure-history}
use k8s_drain_surge.Workload.{rollout, get_pod_selector}
use k8s_drain_surge.Scaler.{list_matching_pods, is_pod_ready, is_pod_terminating}
use k8s_drain_surge.RestartDetect.{restart_completed_by_argo}
use k8s_drain_surge.RestartDetect.Stuck.{HasReached, IsReplaced, restart_completed_by_argo-cases}
use k8s_drain_surge.NodeController.Abort.{requeue}
use k8s_drain_surge.RolloutController.Abort.{RolloutReconciler}
use k8s_drain_surge.RolloutController.Handlers.{
  ready_count, await_two_ready, handle_restart_wait_for_argo, status_caught_up,
}

-- A pod that serves: ready, and not terminating.
pub record IsServing (pod : Pod) : Type 0 where
  pub ready : is_pod_ready pod.conditions ≡ true
  pub live : is_pod_terminating pod ≡ false

ready_count-IsServing : (n : ℕ) (pods : List Pod) → n ≤ ready_count pods → AtLeast n IsServing pods
unfolding ready_count
ready_count-IsServing zero pods enough = tt
ready_count-IsServing (suc n) [] enough = ground arith
ready_count-IsServing (suc n) (pod ∷ pods) enough = elim (Bool-cases (is_pod_terminating pod)) [
  | inl dying ↦ inr (ready_count-IsServing (suc n) pods (ground (arith, dying, enough)))
  | inr live ↦ elim (Bool-cases (is_pod_ready pod.conditions)) [
    | inl ready ↦ inl (
      record { ready = ready; live = live },
      ready_count-IsServing n pods (ground (arith, live, ready, enough)),
    )
    | inr waiting ↦ inr (ready_count-IsServing (suc n) pods (ground (arith, live, waiting, enough)))
  ]
]

module _ (r : RolloutReconciler) (ro : Rollout) (s : Session) where
  -- The pods that the handlers list.
  abbrev pub listed : Result (List Pod)
  listed =
      r.client.list_pods s.calls ro.object_meta.namespace (get_pod_selector r.client (rollout ro))

  asked :
      list_matching_pods r.client ro.object_meta.namespace
        (get_pod_selector r.client (rollout ro))
        s
      ≡ (with_context "list pods" listed, record s { calls = suc s.calls })
  unfolding ◌>>=◌
  asked = refl

  ready_quiet :
      (answer : Result (List Pod))
      → listed ≡ answer
      → ((pods : List Pod) → answer ≡ ok pods → leb 2 (ready_count pods) ≡ false)
      → (await_two_ready r ro s).1.history ≡ s.history
  unfolding await_two_ready
  ready_quiet (err e) answered few =
      ap (λ p. p.1.history)
        (bind_err _ {s' = record s { calls = suc s.calls }} {e = wrapped "list pods" e} _
          (rw (asked, answered) refl))
  ready_quiet (ok pods) answered few =
      ap (λ p. p.1.history)
        (bind_ok _ {s' = record s { calls = suc s.calls }} {a = pods} _ (rw (asked, answered) refl))
      ∙ rw (few pods refl)
          (pure-history (requeue r.config.requeue_interval) (record s { calls = suc s.calls }))

  -- Whatever handleRestartWaitReady writes or reports about readiness, it has listed the Rollout's
  -- pods before, and at least two of them are ready and not terminating.
  pub await_two_ready-acts :
      (await_two_ready r ro s).1.history ≢ s.history
      → (pods : List Pod) × (listed ≡ ok pods) × AtLeast 2 IsServing pods
  await_two_ready-acts acts = on_answer listed refl
    where
      on_answer :
          (answer : Result (List Pod))
          → listed ≡ answer
          → (pods : List Pod) × (listed ≡ ok pods) × AtLeast 2 IsServing pods
      on_answer (err e) answered = absurd (acts (ready_quiet (err e) answered (λ pods p. cc)))
      on_answer (ok pods) answered = elim (Bool-cases (leb 2 (ready_count pods))) [
        | inl enough ↦ (pods, answered, ready_count-IsServing 2 pods (ground (arith, enough)))
        | inr few ↦
            absurd (acts (ready_quiet (ok pods) answered (λ others p. ground (arith, p, few))))
      ]

  argo_quiet :
      (answer : Result (List Pod))
      → status_caught_up r ro ≡ false
      → listed ≡ answer
      → ((pods : List Pod) → answer ≡ ok pods → restart_completed_by_argo ro pods ≡ false)
      → (handle_restart_wait_for_argo r ro s).1.history ≡ s.history
  unfolding handle_restart_wait_for_argo
  argo_quiet (err e) behind answered few = rw behind (
      ap (λ p. p.1.history)
        (bind_err _ {s' = record s { calls = suc s.calls }} {e = wrapped "list pods" e} _
          (rw (asked, answered) refl)))
  argo_quiet (ok pods) behind answered few = rw behind (
      ap (λ p. p.1.history)
        (bind_ok _ {s' = record s { calls = suc s.calls }} {a = pods} _ (rw (asked, answered) refl))
      ∙ rw (few pods refl)
          (pure-history (requeue r.config.requeue_interval) (record s { calls = suc s.calls })))

  caught_up-HasReached : status_caught_up r ro ≡ true → HasReached ro
  caught_up-HasReached = at ro.restart_at refl ro.restarted_at refl
    where
      at :
          (asked : Option Time)
          → ro.restart_at ≡ asked
          → (reached : Option Time) → ro.restarted_at ≡ reached
          → status_caught_up r ro ≡ true
          → HasReached ro
      at none a reached d h = absurd (ground (arith, a, h))
      at (some t) a none d h = absurd (ground (arith, a, d, h))
      at (some t) a (some u) d h = (t, a, ground (arith, a, d, h, eqb_ℤ_iff u t))

  -- handleRestartWaitForArgo writes or reports nothing unless the status of the Rollout has reached
  -- the restart that is asked for, or it has listed the Rollout's pods, and no restart is asked for
  -- any more or no live one of them is older than it.
  pub handle_restart_wait_for_argo-acts :
      (handle_restart_wait_for_argo r ro s).1.history ≢ s.history
      → HasReached ro ⊎ ((pods : List Pod) × (listed ≡ ok pods) × IsReplaced ro pods)
  handle_restart_wait_for_argo-acts acts = elim (Bool-cases (status_caught_up r ro)) [
    | inl done ↦ inl (caught_up-HasReached done)
    | inr behind ↦
        let (pods, answered, completed) = on_answer behind listed refl in
        elim (restart_completed_by_argo-cases ro pods completed) [
          | inl reached ↦ inl reached
          | inr replaced ↦ inr (pods, answered, replaced)
        ]
  ]
    where
      on_answer :
          status_caught_up r ro ≡ false
          → (answer : Result (List Pod)) → listed ≡ answer
          → (pods : List Pod) × (listed ≡ ok pods) × (restart_completed_by_argo ro pods ≡ true)
      on_answer behind (err e) answered =
          absurd (acts (argo_quiet (err e) behind answered (λ pods p. cc)))
      on_answer behind (ok pods) answered = elim (Bool-cases (restart_completed_by_argo ro pods)) [
        | inl completed ↦ (pods, answered, completed)
        | inr not_yet ↦
            absurd
              (acts (argo_quiet (ok pods) behind answered (λ others p. ground (arith, p, not_yet))))
      ]
