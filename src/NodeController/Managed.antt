-- ===== src/NodeController/Managed.antt =====
-- A drain with an HPA that makes progress: the minReplicas of the HPA along it, and what the handlers
-- send. The HPA's controller sets the replicas of the workload in between.
pub mod Start
pub mod Phases
pub mod Rounds
pub mod Completion
use k8s_drain_surge.Base.{
  ℕ, suc, String, ◌≡◌, ◌≢◌, refl, ◌∙◌, ◌∙◌, Bool, true, false, ◌&&◌, not, Option, none, some, List,
  [], ◌∷◌, arith, eq_iff, ◌==◌, if◌then◌else◌,
}
use k8s_drain_surge.Base.Int.{ℤ, pos, InRange, half32, int32-InRange, eqb_ℤ}
use k8s_drain_surge.Base.Maps.{GoMap, get}
use k8s_drain_surge.Errors.{ok}
use k8s_drain_surge.Strconv.{itoa}
use k8s_drain_surge.Strconv.RoundTrip.{atoi-itoa}
use k8s_drain_surge.State.{
  DrainState, text, annotation_drain_state, annotation_hpa_name,
  annotation_hpa_original_min_replicas, get_original_replicas,
}
use k8s_drain_surge.State.Replicas.{int32_fits_int64}
use k8s_drain_surge.Kube.{Api, Hpa, Pod, Write, hpa_patch}
use k8s_drain_surge.Session.Refused.{Unapplied}
use k8s_drain_surge.Session.{Effect, applied, refused, event, normal, Session, ◌>>=◌, send}
use k8s_drain_surge.Workload.{
  Workload, annotations, object_ref, object_meta, get_replicas, spec_replicas,
}
use k8s_drain_surge.Workload.Patching.{Stored}
use k8s_drain_surge.Scaler.{
  hpa_min_replicas_or_default, patch_hpa_min_replicas, find_ready_pod_on_other_node,
  ready_elsewhere, find_pod_on_node, on_node,
}
use k8s_drain_surge.NodeController.Abort.{NodeReconciler, restore_hpa, restore_min}
use k8s_drain_surge.NodeController.Handlers.{
  annotate, scaled_down, corrected, handle_wait_ready, await_ready, handle_wait_eviction,
  handle_scale_down,
}
use k8s_drain_surge.NodeController.Lifecycle.Handlers.{annotations-resized, replicas-resized}
use k8s_drain_surge.NodeController.Restoring.{restore_hpa-recorded}
use k8s_drain_surge.NodeController.Progress.{Accepts, Autoscaler, patch_to, history-patch}
use k8s_drain_surge.NodeController.Progress.Handlers.{
  Lists, object_ref-annotate, object_ref-scaled_down,
}
use k8s_drain_surge.NodeController.Progress.Start.{HasRoom}

-- What the annotations of a drain say of this HPA.
abbrev pub noted : Hpa → Autoscaler
noted hpa = record { name = hpa.name; minimum = itoa (hpa_min_replicas_or_default hpa) }

-- spec.minReplicas of the HPA of this name after the effects of a history, the last effect first.
module _ (namespace name : String) where
  abbrev apply_to_hpa : Effect → Option ℤ → Option ℤ
  apply_to_hpa (applied (hpa_patch namespace' name' n)) minimum =
      if namespace' == namespace && name' == name then some n else minimum
  apply_to_hpa _ minimum = minimum

  unfoldable pub minimum_after : Option ℤ → List Effect → Option ℤ
  minimum_after minimum [] = minimum
  minimum_after minimum (e ∷ es) = apply_to_hpa e (minimum_after minimum es)

-- Patches that the server refuses leave minReplicas as it is.
pub minimum_after-Unapplied :
    (namespace name : String) (minimum : Option ℤ) (es : List Effect)
    → Unapplied es
    → minimum_after namespace name minimum es ≡ minimum
unfolding minimum_after
minimum_after-Unapplied namespace name minimum [] h = refl
minimum_after-Unapplied namespace name minimum (applied w ∷ es) h = absurd h
minimum_after-Unapplied namespace name minimum (refused w ∷ es) h =
    minimum_after-Unapplied namespace name minimum es h
minimum_after-Unapplied namespace name minimum (event _ _ _ ∷ es) h =
    minimum_after-Unapplied namespace name minimum es h

pub history-patch_hpa :
    (c : Api) (namespace name : String) (n : ℤ) (s : Session)
    → Accepts c
    → patch_hpa_min_replicas c namespace name n s ≡ (
      ok tt,
      record s { calls = suc s.calls; history = applied (hpa_patch namespace name n) ∷ s.history },
    )
unfolding patch_hpa_min_replicas send
history-patch_hpa c namespace name n s accepts =
    rw (accepts s.calls (hpa_patch namespace name n)) refl

-- From annotations that note the HPA, restoreHPA sends its minReplicas from before.
pub restore_hpa-noted :
    (c : Api) (namespace : String) (hpa : Hpa) (m : GoMap String) (s : Session)
    → Accepts c
    → HasRoom hpa
    → get m annotation_hpa_name ≡ hpa.name
    → get m annotation_hpa_original_min_replicas ≡ itoa (hpa_min_replicas_or_default hpa)
    → restore_hpa c namespace m s ≡ (
      ok tt,
      record s {
        calls = suc s.calls;
        history =
            applied (hpa_patch namespace hpa.name (hpa_min_replicas_or_default hpa)) ∷ s.history;
      },
    )
restore_hpa-noted c namespace hpa m s accepts has e f =
    restore_hpa-recorded c namespace hpa m s has.named has.fits e f
    ∙ history-patch_hpa c namespace hpa.name (hpa_min_replicas_or_default hpa) s accepts

-- An HPA with a name is recorded.
module _ (r : NodeReconciler) (wl : Workload) {name : String} (named : name ≢ "")
    (managed : get (annotations wl) annotation_hpa_name ≡ name) where
  is_noted : (get (annotations wl) annotation_hpa_name == "") ≡ false
  is_noted = ground (arith, named, managed, eq_iff (get (annotations wl) annotation_hpa_name) "")

module _ (r : NodeReconciler) (wl : Workload) (node_name : String) (s : Session)
    (accepts : Accepts r.client) (hpa : Hpa) (has : HasRoom hpa)
    (managed : get (annotations wl) annotation_hpa_name ≡ hpa.name) where
  pub history-managed_wait_ready :
      (pods : List Pod)
      → Lists r.client wl pods
      → ready_elsewhere node_name pods ≡ true
      → (handle_wait_ready r wl node_name s).1.history
        ≡ applied (patch_to wl (annotate annotation_drain_state (text DrainState.ready) wl))
          ∷ s.history
  unfolding handle_wait_ready await_ready find_ready_pod_on_other_node ◌>>=◌
  history-managed_wait_ready pods lists ready = rw (is_noted r wl has.named managed) (
      ground (
        arith,
        lists s.calls,
        history-patch r.client wl (annotate annotation_drain_state (text DrainState.ready) wl)
            (record s { calls = suc s.calls }) accepts (object_ref-annotate _ _ wl),
      ))

  pub history-managed_wait_eviction :
      (pods : List Pod)
      → get (annotations wl) annotation_hpa_original_min_replicas
        ≡ itoa (hpa_min_replicas_or_default hpa)
      → get_original_replicas (annotations wl) ≡ ok (pos 1)
      → Lists r.client wl pods
      → on_node node_name pods ≡ false
      → (handle_wait_eviction r wl node_name s).1.history
        ≡ event (object_ref wl) normal "DrainScaleDown"
          ∷ applied (patch_to wl (annotate annotation_drain_state (text DrainState.draining) wl))
          ∷ applied
              (hpa_patch (object_meta wl).namespace hpa.name (hpa_min_replicas_or_default hpa))
          ∷ s.history
  unfolding handle_wait_eviction find_pod_on_node ◌>>=◌
  history-managed_wait_eviction pods minimum known lists gone = ground (
    arith,
    is_noted r wl has.named managed,
    lists s.calls,
    restore_hpa-noted r.client (object_meta wl).namespace hpa (annotations wl)
        (record s { calls = suc s.calls }) accepts has managed minimum,
    history-patch r.client wl (annotate annotation_drain_state (text DrainState.draining) wl)
        (record {
          calls = suc (suc s.calls);
          history =
              applied
                (hpa_patch (object_meta wl).namespace hpa.name (hpa_min_replicas_or_default hpa))
              ∷ s.history;
        })
        accepts (object_ref-annotate _ _ wl),
  )

  pub history-managed_scale_down :
      get_original_replicas (annotations wl) ≡ ok (pos 1)
      → (handle_scale_down r wl s).1.history
        ≡ applied (patch_to wl (annotate annotation_drain_state (text DrainState.done) wl))
          ∷ s.history
  unfolding handle_scale_down ◌>>=◌
  history-managed_scale_down known = rw (is_noted r wl has.named managed) (
      ground (
        arith,
        history-patch r.client wl (annotate annotation_drain_state (text DrainState.done) wl) s
            accepts (object_ref-annotate _ _ wl),
      ))
