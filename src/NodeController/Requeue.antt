-- ===== src/NodeController/Requeue.antt =====
-- The delay after which a node is reconciled again.
use k8s_drain_surge.Base.{◌≡◌, refl, arith}
use k8s_drain_surge.Base.Int.{ℤ, pos, ◌≤ℤ◌, eq_of_parts}
use k8s_drain_surge.Errors.{Result, ok, err}
use k8s_drain_surge.NodeController.Abort.{Outcome}
use k8s_drain_surge.NodeController.Reconcile.{soonest}

-- Exchanging the results of two workloads that follow one another does not change the delay that
-- the loop over the workloads gathers, if the delay so far is not negative.
pub soonest-exchange :
    (acc : ℤ) (a b : Result Outcome)
    → pos 0 ≤ℤ acc
    → soonest (soonest acc a) b ≡ soonest (soonest acc b) a
unfolding soonest
soonest-exchange acc (err d) (err e) start = refl
soonest-exchange acc (err d) (ok b) start = refl
soonest-exchange acc (ok a) (err e) start = refl
soonest-exchange acc (ok a) (ok b) start =
    ground (arith, eq_of_parts a.requeue_after b.requeue_after)
