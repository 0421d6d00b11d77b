-- ===== src/NodeController/Safety.antt =====
-- A drain moves on only when the pods allow it.
use k8s_drain_surge.Base.{ap, ◌∙◌, suc, String, ◌≡◌, ◌≢◌, refl, Bool, true, false, List, arith}
use k8s_drain_surge.Errors.{Result, ok, err, wrapped, with_context}
use k8s_drain_surge.Kube.{Pod}
use k8s_drain_surge.Session.{Session, ◌>>=◌, bind_ok, bind_err, pure-history}
use k8s_drain_surge.Workload.{Workload, object_meta, get_pod_selector}
use k8s_drain_surge.Scaler.{
  find_pod_on_node, find_ready_pod_on_other_node, on_node, ready_elsewhere,
}
use k8s_drain_surge.Base.Lists.{Any}
use k8s_drain_surge.Scaler.Matching.{IsLiveOn, IsReadyElsewhere, on_node_iff, ready_elsewhere_iff}
use k8s_drain_surge.NodeController.Abort.{NodeReconciler, requeue}
use k8s_drain_surge.NodeController.Handlers.{handle_wait_eviction, await_ready}

module _ (r : NodeReconciler) (wl : Workload) (node_name : String) (s : Session) where
  -- The pods that the handlers list.
  abbrev pub listed : Result (List Pod)
  listed = r.client.list_pods s.calls (object_meta wl).namespace (get_pod_selector r.client wl)

  asked_on_node :
      find_pod_on_node r.client
        (object_meta wl).namespace
        (get_pod_selector r.client wl)
        node_name
        s
      ≡ (
        elim listed [
          | ok pods ↦ ok (on_node node_name pods)
          | err e ↦ with_context "list pods" (err e)
        ],
        record s { calls = suc s.calls },
      )
  unfolding find_pod_on_node ◌>>=◌
  asked_on_node = ground arith

  eviction_quiet :
      (answer : Result (List Pod))
      → listed ≡ answer
      → ((pods : List Pod) → answer ≡ ok pods → on_node node_name pods ≡ true)
      → (handle_wait_eviction r wl node_name s).1.history ≡ s.history
  unfolding handle_wait_eviction
  eviction_quiet (err e) answered live =
      ap (λ p. p.1.history)
        (bind_err _ {s' = record s { calls = suc s.calls }} {e = wrapped "list pods" e} _
          (rw (asked_on_node, answered) refl))
  eviction_quiet (ok pods) answered live =
      ap (λ p. p.1.history)
        (bind_ok _ {s' = record s { calls = suc s.calls }} {a = true} _
          (rw (asked_on_node, answered, live pods refl) refl))
      ∙ pure-history (requeue r.config.requeue_interval) (record s { calls = suc s.calls })

  -- Whatever handleWaitEviction patches or reports, it has listed the workload's pods before, and
  -- none of them still needs the node.
  pub handle_wait_eviction-acts :
      (handle_wait_eviction r wl node_name s).1.history ≢ s.history
      → (pods : List Pod) × (listed ≡ ok pods) × ¬ (Any (IsLiveOn node_name) pods)
  handle_wait_eviction-acts acts = on_answer listed refl
    where
      on_answer :
          (answer : Result (List Pod))
          → listed ≡ answer
          → (pods : List Pod) × (listed ≡ ok pods) × ¬ (Any (IsLiveOn node_name) pods)
      on_answer (err e) answered = absurd (acts (eviction_quiet (err e) answered (λ pods p. cc)))
      on_answer (ok pods) answered = (
        pods,
        answered,
        λ live. acts (
            eviction_quiet (ok pods) answered
              (λ others p. ground (arith, p, (on_node_iff node_name pods).1 live))),
      )

  asked_elsewhere :
      find_ready_pod_on_other_node r.client
        (object_meta wl).namespace
        (get_pod_selector r.client wl)
        node_name
        s
      ≡ (
        elim listed [
          | ok pods ↦ ok (ready_elsewhere node_name pods)
          | err e ↦ with_context "list pods" (err e)
        ],
        record s { calls = suc s.calls },
      )
  unfolding find_ready_pod_on_other_node ◌>>=◌
  asked_elsewhere = ground arith

  ready_quiet :
      (answer : Result (List Pod))
      → listed ≡ answer
      → ((pods : List Pod) → answer ≡ ok pods → ready_elsewhere node_name pods ≡ false)
      → (await_ready r wl node_name s).1.history ≡ s.history
  unfolding await_ready
  ready_quiet (err e) answered missing =
      ap (λ p. p.1.history)
        (bind_err _ {s' = record s { calls = suc s.calls }} {e = wrapped "list pods" e} _
          (rw (asked_elsewhere, answered) refl))
  ready_quiet (ok pods) answered missing =
      ap (λ p. p.1.history)
        (bind_ok _ {s' = record s { calls = suc s.calls }} {a = false} _
          (rw (asked_elsewhere, answered, missing pods refl) refl))
      ∙ pure-history (requeue r.config.requeue_interval) (record s { calls = suc s.calls })

  -- The second half of handleWaitReady, which writes the state "ready", writes or reports nothing
  -- unless it has listed the workload's pods and one of them is ready, not terminating, and away
  -- from the node.
  pub await_ready-acts :
      (await_ready r wl node_name s).1.history ≢ s.history
      → (pods : List Pod) × (listed ≡ ok pods) × Any (IsReadyElsewhere node_name) pods
  await_ready-acts acts = on_answer listed refl
    where
      on_listed :
          (pods : List Pod)
          → listed ≡ ok pods
          → (b : Bool) → ready_elsewhere node_name pods ≡ b
          → Any (IsReadyElsewhere node_name) pods
      on_listed pods answered true seen = (ready_elsewhere_iff node_name pods).0 seen
      on_listed pods answered false seen =
          absurd (acts (ready_quiet (ok pods) answered (λ others p. ground (arith, p, seen))))

      on_answer :
          (answer : Result (List Pod))
          → listed ≡ answer
          → (pods : List Pod) × (listed ≡ ok pods) × Any (IsReadyElsewhere node_name) pods
      on_answer (err e) answered = absurd (acts (ready_quiet (err e) answered (λ pods p. cc)))
      on_answer (ok pods) answered =
          (pods, answered, on_listed pods answered (ready_elsewhere node_name pods) refl)
