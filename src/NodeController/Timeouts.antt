-- ===== src/NodeController/Timeouts.antt =====
-- Drains that have run over their time.
use k8s_drain_surge.Base.{suc, String, ◌≡◌, ◌↔◌, Bool, true, false, some, ◌∷◌, arith}
use k8s_drain_surge.Base.Int.{
  ℤ, pos, ◌+ℤ◌, ◌<ℤ◌, ◌≤ℤ◌, int64, int64-InRange, InRange, half64, ltb_ℤ, +ℤ_parts,
}
use k8s_drain_surge.State.{is_active, parse_drain_start}
use k8s_drain_surge.Kube.{Time}
use k8s_drain_surge.Session.{Session, event, warning, ◌>>=◌}
use k8s_drain_surge.Workload.{Workload, annotations, object_ref}
use k8s_drain_surge.RestartDetect.{sub_time}
use k8s_drain_surge.NodeController.Abort.{NodeReconciler, abort_workload}
use k8s_drain_surge.NodeController.Reconcile.{
  in_time, timed_out, stale, overrun, measure_overrun, reconcile_measured, reconcile_workload,
  state_of,
}

-- Three times the timeout does not wrap around in int64.
abbrev pub FitsThrice : ℤ → Type 0
FitsThrice timeout = (pos 0 <ℤ timeout) × InRange half64 (timeout +ℤ timeout +ℤ timeout)

-- With a positive timeout of which the triple fits int64, an operation is stale exactly beyond
-- three times its timeout, timed out exactly beyond the timeout and not stale, and in time
-- otherwise.
pub overrun_lem :
    (timeout elapsed : ℤ)
    → FitsThrice timeout
    → ((overrun timeout elapsed ≡ stale) ↔ (timeout +ℤ timeout +ℤ timeout <ℤ elapsed))
      × ((overrun timeout elapsed ≡ timed_out)
          ↔ ((timeout <ℤ elapsed) × (elapsed ≤ℤ timeout +ℤ timeout +ℤ timeout)))
      × ((overrun timeout elapsed ≡ in_time) ↔ (elapsed ≤ℤ timeout))
unfolding overrun
overrun_lem timeout elapsed fits =
    rw (int64-InRange (timeout +ℤ timeout +ℤ timeout) fits.1)
      (ground (arith, +ℤ_parts timeout timeout, +ℤ_parts (timeout +ℤ timeout) timeout))

-- The event that goes with an overrun.
abbrev pub reason_of : Bool → String
reason_of true = "DrainStale"
reason_of false = "DrainTimeout"

-- An active drain with a readable start that has run longer than the timeout is aborted: with a
-- warning, DrainStale beyond the triple of the timeout in int64 and DrainTimeout up to it, and then
-- by abortWorkload, whatever its state and whichever node is reconciled.
pub reconcile_workload-overrun :
    (r : NodeReconciler) (wl : Workload) (node_name : String) (s : Session) (start : Time)
    → is_active (state_of wl) ≡ true
    → parse_drain_start r.client.parse_rfc3339 (annotations wl) ≡ some start
    → r.config.readiness_timeout <ℤ sub_time (r.client.now s.calls) start
    → reconcile_workload r wl node_name s
      ≡ abort_workload r wl (record {
        calls = suc s.calls;
        history =
            event (object_ref wl) warning (
              reason_of (
                ltb_ℤ
                  (int64 (
                    r.config.readiness_timeout +ℤ r.config.readiness_timeout
                    +ℤ r.config.readiness_timeout))
                  (sub_time (r.client.now s.calls) start)))
            ∷ s.history;
      })
unfolding reconcile_workload measure_overrun reconcile_measured overrun ◌>>=◌
reconcile_workload-overrun r wl node_name s start active parsed over =
    rw (active, parsed) (ground arith)
