-- ===== src/NodeController/Progress.antt =====
-- A drain that makes progress: one reconcile of the object that the server holds, and what it takes
-- for it to reach the handler of its state; the children have the handlers and the whole drain.
pub mod Handlers
pub mod Start
pub mod Steps
pub mod Phases
pub mod Beginning
pub mod Rounds
pub mod Completion
use k8s_drain_surge.Base.{
  ℕ, suc, String, ◌≡◌, ◌≢◌, refl, sym, fun_ext, Bool, true, false, Option, none, some, List, [],
  ◌∷◌, arith, eq_iff, ◌==◌, if◌then◌else◌,
}
use k8s_drain_surge.Base.Int.{ℤ, pos}
use k8s_drain_surge.Base.Maps.{GoMap, get, insert}
use k8s_drain_surge.Errors.{Result, ok}
use k8s_drain_surge.State.{
  DrainState, drain_state, annotation_drain_state, annotation_drain_node, annotation_drain_start,
  annotation_hpa_name, annotation_hpa_original_min_replicas, annotation_original_replicas,
  get_original_replicas, parse_drain_start, is_active, parse_rfc3339_annotation,
}
use k8s_drain_surge.Kube.{Api, Time, Write, workload_patch}
use k8s_drain_surge.Session.{Effect, applied, Session, send, ◌>>=◌}
use k8s_drain_surge.Workload.{
  Workload, rollout, deployment, annotations, object_ref, annotation_patch, spec_replicas,
  replicas_or_one, patch, patch_replicas_and_annotations,
}
use k8s_drain_surge.Workload.Patching.{
  MergePatch, Stored, stored, apply_effect, is_owned, merge-annotation_patch,
}
use k8s_drain_surge.RestartDetect.{sub_time}
use k8s_drain_surge.NodeController.Abort.{NodeReconciler, Outcome}
use k8s_drain_surge.NodeController.Undo.{same_ref_refl}
use k8s_drain_surge.NodeController.Reconcile.{
  state_of, start_if_active, measure_overrun, overrun, Overrun, in_time, reconcile_measured,
  reconcile_workload, dispatch, admitted, drained_elsewhere,
}
use k8s_drain_surge.NodeController.Reachable.{view}

-- The workload as the server holds it: what a drain does not change comes from `wl`.
abbrev pub held : Workload → Stored → Workload
held (rollout ro) st = rollout (record ro {
  object_meta = record ro.object_meta { annotations = st.annotations };
  replicas = st.replicas;
})
held (deployment d) st = deployment (record d {
  object_meta = record d.object_meta { annotations = st.annotations };
  replicas = st.replicas;
})

-- The text is a time that this clock has shown.
pub record IsStamp (c : Api) (t : String) : Type 0 where
  pub call : ℕ
  pub shown : t ≡ c.format_rfc3339 (c.now call)

-- What the annotations say of an HPA: its name, "" for none, and its minReplicas from before.
pub record Autoscaler : Type 0 where
  pub name : String
  pub minimum : String

-- No HPA is recorded.
abbrev pub unmanaged : String → Autoscaler
unmanaged minimum = record { name = ""; minimum = minimum }

-- A drain, recorded for the node at a time that the clock of `c` has shown, with this HPA, is in this
-- state with this many replicas, and the foreign annotations are those of `wl`.
pub record IsDrainAt (c : Api) (wl : Workload) (node_name : String) (au : Autoscaler)
    (state : DrainState) (n : ℤ) (replicas : Option ℤ) (m : GoMap String) : Type 0 where
  pub at_state : drain_state (get m annotation_drain_state) ≡ state
  pub at_replicas : replicas_or_one replicas ≡ n
  pub original : get_original_replicas m ≡ ok (pos 1)
  pub node : get m annotation_drain_node ≡ node_name
  pub hpa : get m annotation_hpa_name ≡ au.name
  pub minimum : get m annotation_hpa_original_min_replicas ≡ au.minimum
  pub stamp : IsStamp c (get m annotation_drain_start)
  pub foreign : (k : String) → is_owned k ≡ false → m k ≡ annotations wl k

-- The cluster takes every patch.
abbrev pub Accepts : Api → Type 0
Accepts c = (k : ℕ) (w : Write) → c.patch k w ≡ ok tt

-- Every time that the clock of `c` shows is within the timeout of every start that `c0` has shown.
abbrev pub InTime : (c0 c : Api) → (timeout : ℤ) → Type 0
InTime c0 c timeout =
    (j k : ℕ) (start : Time)
    → c.parse_rfc3339 (c0.format_rfc3339 (c0.now j)) ≡ some start
    → overrun timeout (sub_time (c.now k) start) ≡ in_time

-- A session whose history is that of `s`.
pub record IsQuiet (s s' : Session) : Type 0 where
  pub same_history : s'.history ≡ s.history

module _ (r : NodeReconciler) (wl : Workload) (node_name : String) where
  measured-quiet :
      (start : Option Time) (s : Session) (P : Result Outcome × Session → Type 0)
      → ((k : ℕ) (t : Time)
          → start ≡ some t
          → overrun r.config.readiness_timeout (sub_time (r.client.now k) t) ≡ in_time)
      → ((s' : Session)
          → s'.history ≡ s.history
          → P (reconcile_measured r in_time (state_of wl) wl node_name s'))
      → P (
          (measure_overrun r.client r.config.readiness_timeout start >>= λ over.
          reconcile_measured r over (state_of wl) wl node_name)
            s)
  unfolding measure_overrun ◌>>=◌
  measured-quiet none s P timely k = k s refl
  measured-quiet (some t) s P timely k =
      rw (timely s.calls t refl) (k (record s { calls = suc s.calls }) refl)

  measured-dispatched :
      (state : DrainState) (s : Session)
      → state ≢ DrainState.none
      → drained_elsewhere r wl node_name ≡ false
      → reconcile_measured r in_time state wl node_name s ≡ dispatch r state wl node_name s
  unfolding reconcile_measured admitted ◌>>=◌
  measured-dispatched state s started here = ground (arith, here)

-- What a drain at some state needs to reach the handler of that state.
module _ (c0 : Api) (r : NodeReconciler) (base wl : Workload) (node_name : String) (au : Autoscaler)
    (state : DrainState) (n : ℤ)
    (at : IsDrainAt c0 base node_name au state n (spec_replicas wl) (annotations wl)) where
  recorded-here : drained_elsewhere r wl node_name ≡ false
  recorded-here = ground (
    arith,
    at.node,
    eq_iff (get (annotations wl) annotation_drain_node) "",
    eq_iff (get (annotations wl) annotation_drain_node) node_name,
  )

  recorded-timely :
      (t : Time) (k : ℕ)
      → InTime c0 r.client r.config.readiness_timeout
      → start_if_active r state wl ≡ some t
      → overrun r.config.readiness_timeout (sub_time (r.client.now k) t) ≡ in_time
  unfolding parse_drain_start parse_rfc3339_annotation
  recorded-timely t k timely e = timely at.stamp.call k t (rw (sym at.stamp.shown) (ground arith))

  -- A drain in time is handed to the handler of its state.
  pub reconcile_workload-dispatched :
      (s : Session) (P : Result Outcome × Session → Type 0)
      → state ≢ DrainState.none
      → InTime c0 r.client r.config.readiness_timeout
      → ((s' : Session) → s'.history ≡ s.history → P (dispatch r state wl node_name s'))
      → P (reconcile_workload r wl node_name s)
  unfolding reconcile_workload
  reconcile_workload-dispatched s P started timely k =
      measured-quiet r wl node_name (start_if_active r (state_of wl) wl) s P
        (λ j t e. recorded-timely t j timely (rw at.at_state at e))
        (λ s' same.
          rw (at.at_state, measured-dispatched r wl node_name state s' started recorded-here)
            (k s' same))

-- The patch of the object `wl` that sends `next`.
abbrev pub patch_to : Workload → Workload → Write
patch_to wl next =
    workload_patch (object_ref wl) (spec_replicas next) (annotation_patch (annotations next))

-- A patch that changes owned keys only makes the server's annotations those of the patch.
merge-own :
    (mp : MergePatch) (m a : GoMap String)
    → ((k : String) → is_owned k ≡ false → m k ≡ a k)
    → mp.merge (annotation_patch m) a ≡ m
merge-own mp m a same = fun_ext λ k. ground (arith, merge-annotation_patch mp m a k, same k)

pub stored-patch_to :
    (mp : MergePatch) (wl next : Workload) (st : Stored) (es : List Effect)
    → ((k : String) → is_owned k ≡ false → annotations next k ≡ st.annotations k)
    → stored mp (object_ref wl) st es ≡ st
    → stored mp (object_ref wl) st (applied (patch_to wl next) ∷ es) ≡ view next
unfolding stored apply_effect
stored-patch_to mp wl next st es foreign before =
    rw
      (
        before,
        same_ref_refl (object_ref wl),
        merge-own mp (annotations next) st.annotations foreign,
      )
      refl

sent-patch_to :
    (wl next : Workload)
    → object_ref next ≡ object_ref wl
    → workload_patch (object_ref next) (spec_replicas next) (annotation_patch (annotations next))
      ≡ patch_to wl next
sent-patch_to wl next same = cc

-- An accepted patch of `next` is the patch to it.
pub history-patch :
    (c : Api) (wl next : Workload) (s : Session)
    → Accepts c
    → object_ref next ≡ object_ref wl
    → patch c next s
      ≡ (ok tt, record s { calls = suc s.calls; history = applied (patch_to wl next) ∷ s.history })
unfolding patch patch_replicas_and_annotations send
history-patch c wl next s accepts same =
    ground (arith, accepts s.calls (patch_to wl next), sent-patch_to wl next same)
