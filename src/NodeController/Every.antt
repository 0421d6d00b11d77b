-- ===== src/NodeController/Every.antt =====
-- abortWorkloadsForNode attempts every workload that it found.
use k8s_drain_surge.Base.{String, ◌≡◌, ◌↔◌, refl, Option, none, some, List, [], ◌∷◌}
use k8s_drain_surge.Errors.{Error, Result, ok, err}
use k8s_drain_surge.Session.{Session, ◌>>=◌}
use k8s_drain_surge.Workload.{Workload}
use k8s_drain_surge.NodeController.Abort.{
  NodeReconciler, Outcome, finished, abort_workload, abort_all, add_error,
}

module _ (r : NodeReconciler) where
  -- Every workload aborted in turn, whatever the outcomes.
  abbrev pub aborted_in_turn : List (String × Workload) → Session → Session
  aborted_in_turn [] s = s
  aborted_in_turn ((key, wl) ∷ ws) s = aborted_in_turn ws (abort_workload r wl s).1

  -- Every abort of the turn succeeds.
  abbrev pub AllAborted : List (String × Workload) → Session → Type 0
  AllAborted [] s = Unit
  AllAborted ((key, wl) ∷ ws) s =
      ((o : Outcome) × ((abort_workload r wl s).0 ≡ ok o)) × AllAborted ws (abort_workload r wl s).1

  pub abort_all-history :
      (ws : List (String × Workload)) (errs : Option Error) (s : Session)
      → (abort_all r ws errs s).1 ≡ aborted_in_turn ws s
  unfolding abort_all ◌>>=◌
  abort_all-history [] none s = refl
  abort_all-history [] (some e) s = refl
  abort_all-history ((key, wl) ∷ ws) errs s =
      abort_all-history ws (add_error errs (abort_workload r wl s).0) (abort_workload r wl s).1

  IsDone : Result Outcome → Type 0
  IsDone result = (o : Outcome) × (result ≡ ok o)

  add_error-none :
      (errs : Option Error) (result : Result Outcome)
      → (add_error errs result ≡ none) ↔ ((errs ≡ none) × IsDone result)
  unfolding IsDone
  add_error-none none (ok o) = ((λ h. (refl, (o, refl))), (λ h. refl))
  add_error-none none (err e) = ((λ h. cc), (λ h. absurd (case_err h.1)))
    where
      case_err : IsDone (err e) → ⊥
      case_err (o, h) = cc
  add_error-none (some es) (ok o) = ((λ h. cc), (λ h. h.0))
  add_error-none (some es) (err e) = ((λ h. cc), (λ h. cc))

  abort_all-ok :
      (ws : List (String × Workload)) (errs : Option Error) (s : Session)
      → ((abort_all r ws errs s).0 ≡ ok finished) ↔ ((errs ≡ none) × AllAborted ws s)
  unfolding abort_all IsDone ◌>>=◌
  abort_all-ok [] none s = ((λ h. (refl, tt)), (λ h. refl))
  abort_all-ok [] (some e) s = ((λ h. cc), (λ h. cc))
  abort_all-ok ((key, wl) ∷ ws) errs s =
      let here = add_error-none errs (abort_workload r wl s).0 in
      let later =
        abort_all-ok ws (add_error errs (abort_workload r wl s).0) (abort_workload r wl s).1 in
      (
        (λ h. ((here.0 (later.0 h).0).0, ((here.0 (later.0 h).0).1, (later.0 h).1))),
        (λ h. later.1 (here.1 (h.0, h.1.0), h.1.1)),
      )

  -- abortWorkloadsForNode aborts every workload that it has found, whether or not the aborts before
  -- it fail, and returns without an error exactly if none of them fails.
  pub abort_all-attempts :
      (ws : List (String × Workload)) (s : Session)
      → ((abort_all r ws none s).1 ≡ aborted_in_turn ws s)
        × (((abort_all r ws none s).0 ≡ ok finished) ↔ AllAborted ws s)
  abort_all-attempts ws s = (
    abort_all-history ws none s,
    ((λ h. ((abort_all-ok ws none s).0 h).1), (λ h. (abort_all-ok ws none s).1 (refl, h))),
  )
