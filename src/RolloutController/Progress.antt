-- ===== src/RolloutController/Progress.antt =====
-- A restart-surge that makes progress: one reconcile of the Rollout that the server holds, and what
-- it takes for it to reach the handler of its state; the children have the handlers and the whole
-- surge.
pub mod Handlers
pub mod Phases
pub mod Start
pub mod Completion
use k8s_drain_surge.Base.{
  ℕ, suc, String, ◌≡◌, ◌≢◌, ◌∙◌, refl, sym, ap, Bool, true, false, Option, none, some, List, [],
  ◌∷◌, ◌++◌, arith, eq_iff, ◌==◌, if◌then◌else◌,
}
use k8s_drain_surge.Base.Int.{ℤ, pos}
use k8s_drain_surge.Base.Maps.{GoMap, get}
use k8s_drain_surge.Errors.{Result, ok}
use k8s_drain_surge.State.{
  DrainState, drain_state, annotation_drain_state, annotation_restart_surge_state,
  annotation_restart_surge_start, annotation_hpa_name, get_original_replicas,
  parse_restart_surge_start, parse_rfc3339_annotation, is_active, mem_key, restart_surge_full_keys,
}
use k8s_drain_surge.Kube.{Api, Rollout, Time}
use k8s_drain_surge.Session.{Effect, applied, Session, pure, bind_ok, ◌>>=◌}
use k8s_drain_surge.Workload.{Workload, rollout, annotations, object_ref, replicas_or_one}
use k8s_drain_surge.Workload.Patching.{MergePatch, Stored, stored, is_owned}
use k8s_drain_surge.RestartDetect.{sub_time}
use k8s_drain_surge.NodeController.Abort.{Outcome}
use k8s_drain_surge.NodeController.Reconcile.{overrun, Overrun, in_time}
use k8s_drain_surge.NodeController.Reachable.{view}
use k8s_drain_surge.NodeController.Progress.{patch_to, stored-patch_to}
use k8s_drain_surge.RolloutController.Abort.{RolloutReconciler, time_now}
use k8s_drain_surge.RolloutController.Reconcile.{
  restart_state_of, restart_start_if_active, drain_in_progress, measure_restart_overrun,
  restart_measured, restart_dispatch, reconcile_restart,
}

-- The clock of the reconciler: the cluster's, or the one that a test injects.
abbrev pub clock_answer : Option (ℕ → Time) → Api → ℕ → Time
clock_answer none c k = c.now k
clock_answer (some injected) c k = injected k

abbrev pub clock : RolloutReconciler → ℕ → Time
clock r k = clock_answer r.now r.client k

answered :
    (now : Option (ℕ → Time)) (c : Api) (k : ℕ)
    → (elim now [ none ↦ ok (c.now k) | some injected ↦ ok (injected k) ])
      ≡ ok (clock_answer now c k)
answered none c k = refl
answered (some injected) c k = refl

pub time_now-clock :
    (r : RolloutReconciler) (s : Session)
    → time_now r s ≡ (ok (clock r s.calls), record s { calls = suc s.calls })
unfolding ◌>>=◌
time_now-clock r s =
    ap (λ a. (a, record s { calls = suc s.calls })) (answered r.now r.client s.calls)

-- The text is a time that the clock of `r` has shown.
pub record IsShown (r : RolloutReconciler) (t : String) : Type 0 where
  pub call : ℕ
  pub shown : t ≡ r.client.format_rfc3339 (clock r call)

-- A restart-surge without an HPA that began under `r0` is in this state with this many replicas, and
-- every annotation that is not of a restart-surge is that of `base`.
pub record IsSurgeAt (r0 : RolloutReconciler) (base : Rollout) (state : DrainState) (n : ℤ)
    (replicas : Option ℤ) (m : GoMap String) : Type 0 where
  pub at_state : drain_state (get m annotation_restart_surge_state) ≡ state
  pub at_replicas : replicas_or_one replicas ≡ n
  pub original : get_original_replicas m ≡ ok (pos 1)
  pub plain : get m annotation_hpa_name ≡ ""
  pub stamp : IsShown r0 (get m annotation_restart_surge_start)
  pub others :
      (k : String) → mem_key restart_surge_full_keys k ≡ false → m k ≡ annotations (rollout base) k

-- Every time that the clock of `r` shows is within the timeout of every start that `r0` has shown.
abbrev pub SurgeInTime : (r0 r : RolloutReconciler) → Type 0
SurgeInTime r0 r =
    (j k : ℕ) (start : Time)
    → r.client.parse_rfc3339 (r0.client.format_rfc3339 (clock r0 j)) ≡ some start
    → overrun r.config.restart_surge_timeout (sub_time (clock r k) start) ≡ in_time

module _ (r : RolloutReconciler) (ro : Rollout) where
  measured-clock :
      (t : Time) (s : Session)
      → measure_restart_overrun r (some t) s ≡ (
        ok (overrun r.config.restart_surge_timeout (sub_time (clock r s.calls) t)),
        record s { calls = suc s.calls },
      )
  unfolding measure_restart_overrun ◌>>=◌
  measured-clock t s =
      bind_ok (time_now r) (λ now. pure (overrun r.config.restart_surge_timeout (sub_time now t)))
        (time_now-clock r s)

  restart_measured-quiet :
      (start : Option Time) (s : Session) (P : Result Outcome × Session → Type 0)
      → ((k : ℕ) (t : Time)
          → start ≡ some t
          → overrun r.config.restart_surge_timeout (sub_time (clock r k) t) ≡ in_time)
      → ((s' : Session)
          → s'.history ≡ s.history
          → P (restart_measured r in_time (restart_state_of ro) ro s'))
      → P (
          (measure_restart_overrun r start >>= λ over.
          restart_measured r over (restart_state_of ro) ro)
            s)
  restart_measured-quiet none s P timely k = unfold ◌>>=◌ measure_restart_overrun in k s refl
  restart_measured-quiet (some t) s P timely k =
      rw
        (bind_ok (measure_restart_overrun r (some t)) _ (measured-clock t s), timely s.calls t refl)
        (k (record s { calls = suc s.calls }) refl)

  pub restart_measured-dispatched :
      (state : DrainState) (s : Session)
      → drain_in_progress ro ≡ false
      → restart_measured r in_time state ro s ≡ restart_dispatch r state ro s
  unfolding restart_measured
  restart_measured-dispatched state s free = rw free refl

-- What a restart-surge at some state needs to reach the handler of that state.
module _ (r0 r : RolloutReconciler) (base ro : Rollout) (state : DrainState) (n : ℤ)
    (free : drain_in_progress base ≡ false)
    (at : IsSurgeAt r0 base state n ro.replicas ro.object_meta.annotations) where
  still_free : drain_in_progress ro ≡ false
  still_free = ground (arith, free, at.others annotation_drain_state refl)

  recorded-timely :
      (t : Time) (k : ℕ)
      → SurgeInTime r0 r
      → restart_start_if_active r state ro ≡ some t
      → overrun r.config.restart_surge_timeout (sub_time (clock r k) t) ≡ in_time
  unfolding parse_restart_surge_start parse_rfc3339_annotation
  recorded-timely t k timely e = timely at.stamp.call k t (rw (sym at.stamp.shown) (ground arith))

  -- A restart-surge in time, of a Rollout that is not drained, is handed to the handler of its state.
  pub reconcile_restart-dispatched :
      (s : Session) (P : Result Outcome × Session → Type 0)
      → SurgeInTime r0 r
      → ((s' : Session) → s'.history ≡ s.history → P (restart_dispatch r state ro s'))
      → P (reconcile_restart r ro s)
  unfolding reconcile_restart
  reconcile_restart-dispatched s P timely k =
      restart_measured-quiet r ro (restart_start_if_active r (restart_state_of ro) ro) s P
        (λ j t e. recorded-timely t j timely (rw at.at_state at e))
        (λ s' same.
          rw (at.at_state, restart_measured-dispatched r ro state s' still_free) (k s' same))

pub owned_of_surge : (k : String) → is_owned k ≡ false → mem_key restart_surge_full_keys k ≡ false
owned_of_surge k foreign = ground (arith, foreign)

-- What the server holds once the reconciler has acted on the Rollout that it held.
abbrev pub surge_stored : MergePatch → RolloutReconciler → Rollout → ℕ → Stored
surge_stored mp r ro calls =
    stored mp (object_ref (rollout ro)) (view (rollout ro))
      (reconcile_restart r ro (record { calls = calls; history = [] })).1.history

module _ (mp : MergePatch) (r0 r : RolloutReconciler) (base ro : Rollout) (calls : ℕ)
    (free : drain_in_progress base ≡ false) (timely : SurgeInTime r0 r) where
  -- A handler that sends `next` in a patch leaves that in the server.
  pub surge_next-after :
      (state : DrainState) (n : ℤ) (next : Workload) (late early : List Effect)
      → IsSurgeAt r0 base state n ro.replicas ro.object_meta.annotations
      → ((k : String)
          → mem_key restart_surge_full_keys k ≡ false
          → annotations next k ≡ annotations (rollout ro) k)
      → ((s : Session)
          → (restart_dispatch r state ro s).1.history
            ≡ late ++ applied (patch_to (rollout ro) next) ∷ (early ++ s.history))
      → ((st : Stored) (es : List Effect)
          → stored mp (object_ref (rollout ro)) st (late ++ es)
            ≡ stored mp (object_ref (rollout ro)) st es)
      → stored mp (object_ref (rollout ro)) (view (rollout ro)) (early ++ []) ≡ view (rollout ro)
      → surge_stored mp r ro calls ≡ view next
  unfolding stored
  surge_next-after state n next late early at kept sends silent before =
      reconcile_restart-dispatched r0 r base ro state n free at
        (record { calls = calls; history = [] })
        (λ out. stored mp (object_ref (rollout ro)) (view (rollout ro)) out.1.history ≡ view next)
        timely
        (λ s same.
          rw (sends s, same, silent)
            (stored-patch_to mp (rollout ro) next (view (rollout ro)) (early ++ [])
              (λ k foreign. kept k (owned_of_surge k foreign)) before))
