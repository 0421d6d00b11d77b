-- ===== src/NodeController/Admission.antt =====
-- Which workloads reconcileWorkload takes up, and which it leaves alone.
use k8s_drain_surge.Base.{
  String, ◌⊎◌, inl, inr, ◌≡◌, ◌≢◌, ◌↔◌, refl, true, false, Option, none, some, List, arith, eq_iff,
}
use k8s_drain_surge.Base.Int.{pos, ◌<ℤ◌, eqb_ℤ_iff}
use k8s_drain_surge.Base.Maps.{get}
use k8s_drain_surge.Errors.{Result, ok, err}
use k8s_drain_surge.State.{annotation_drain_node, DrainState}
use k8s_drain_surge.Kube.{Hpa}
use k8s_drain_surge.Session.{Session, ◌>>=◌}
use k8s_drain_surge.Workload.{
  Workload, annotations, object_meta, get_replicas, get_object_kind, is_stable, can_surge,
}
use k8s_drain_surge.Scaler.{find_matching_hpa, first_hpa}
use k8s_drain_surge.NodeController.Abort.{NodeReconciler, finished}
use k8s_drain_surge.NodeController.Reconcile.{
  state_of, in_time, reconcile_measured, should_process, hpa_check, hpa_allows, admitted,
  drained_elsewhere,
}

-- The listing of the HPAs answers, and the first one for the workload, if any, allows two replicas.
abbrev pub HpaAllows : String → String → Result (List Hpa) → Type 0
HpaAllows name kind (err _) = ⊥
HpaAllows name kind (ok hpas) =
    (hpa : Hpa) → first_hpa name kind hpas ≡ some hpa → pos 1 <ℤ hpa.max_replicas

-- What a workload must be for a drain to start.
pub record IsEligible (r : NodeReconciler) (wl : Workload) (node_name : String) (s : Session)
    : Type 0 where
  pub opted_in : get (annotations wl) r.config.enabled_annotation ≡ "true"
  pub single : get_replicas wl ≡ pos 1
  pub stable : is_stable wl ≡ true
  pub free : drained_elsewhere r wl node_name ≡ false
  pub surgeable : can_surge wl ≡ true
  pub hpa :
      HpaAllows
        (object_meta wl).name
        (get_object_kind wl)
        (r.client.list_hpas s.calls (object_meta wl).namespace)

module _ (r : NodeReconciler) (wl : Workload) (node_name : String) (s : Session) where
  -- The last test of shouldProcess, on an answer of the server.
  hpa_allows_iff :
      (o : Option Hpa) (t : Session)
      → ((hpa_allows r wl (ok o) t).0 ≡ ok true)
        ↔ ((hpa : Hpa) → o ≡ some hpa → pos 1 <ℤ hpa.max_replicas)
  unfolding hpa_allows ◌>>=◌
  hpa_allows_iff none t = ((λ h hpa e. cc), (λ h. refl))
  hpa_allows_iff (some hpa) t = ((λ h other e. ground arith), (λ h. ground (arith, h hpa refl)))

  hpa_check_iff :
      ((hpa_check r wl s).0 ≡ ok true)
      ↔ HpaAllows
          (object_meta wl).name
          (get_object_kind wl)
          (r.client.list_hpas s.calls (object_meta wl).namespace)
  unfolding hpa_check find_matching_hpa hpa_allows ◌>>=◌
  hpa_check_iff = on_answer (r.client.list_hpas s.calls (object_meta wl).namespace) refl
    where
      on_answer :
          (answer : Result (List Hpa))
          → r.client.list_hpas s.calls (object_meta wl).namespace ≡ answer
          → ((hpa_check r wl s).0 ≡ ok true)
            ↔ HpaAllows (object_meta wl).name (get_object_kind wl) answer
      on_answer (err e) answered = rw (answered, hpa_check) (ground arith)
      on_answer (ok hpas) answered =
          rw (answered, hpa_check)
            (hpa_allows_iff (first_hpa (object_meta wl).name (get_object_kind wl) hpas) _)

  -- shouldProcess says yes exactly to an opted-in, stable workload with one replica that may surge,
  -- that no other node is draining, and for which the HPAs can be listed and allow two replicas.
  pub should_process_iff :
      ((should_process r wl node_name s).0 ≡ ok true) ↔ IsEligible r wl node_name s
  unfolding should_process ◌>>=◌
  should_process_iff = (forth, back)
    where
      forth : (should_process r wl node_name s).0 ≡ ok true → IsEligible r wl node_name s
      forth h = record {
        opted_in = ground (arith, eq_iff (get (annotations wl) r.config.enabled_annotation) "true");
        single = ground (arith, eqb_ℤ_iff (get_replicas wl) (pos 1));
        stable = ground arith;
        free = ground arith;
        surgeable = ground arith;
        hpa = hpa_check_iff.0 (ground arith);
      }

      back : IsEligible r wl node_name s → (should_process r wl node_name s).0 ≡ ok true
      back e = ground (
        arith,
        eq_iff (get (annotations wl) r.config.enabled_annotation) "true",
        hpa_check_iff.1 e.hpa,
        e,
      )

  -- Within its time, a workload is left alone (nothing is read, written or reported) if it records
  -- no drain and is not opted in, or records a drain for another node.
  pub left_alone :
      ((state_of wl ≡ DrainState.none)
          × (get (annotations wl) r.config.enabled_annotation ≢ "true"))
        ⊎ ((state_of wl ≢ DrainState.none)
            × (get (annotations wl) annotation_drain_node ≢ "")
            × (get (annotations wl) annotation_drain_node ≢ node_name))
      → reconcile_measured r in_time (state_of wl) wl node_name s ≡ (ok finished, s)
  unfolding reconcile_measured admitted should_process ◌>>=◌
  left_alone (inl (e, out)) =
      rw (e, reconcile_measured)
        (ground (arith, eq_iff (get (annotations wl) r.config.enabled_annotation) "true"))
  left_alone (inr (e, named, other)) = ground (
    arith,
    eq_iff (get (annotations wl) annotation_drain_node) "",
    eq_iff (get (annotations wl) annotation_drain_node) node_name,
  )
