-- ===== src/Scaler/Budgets.antt =====
-- Which disruption budgets count as covering a workload.
use k8s_drain_surge.Base.{
  String, ◌≡◌, ◌≢◌, ◌↔◌, refl, true, Option, none, some, List, [], ◌∷◌, arith,
}
use k8s_drain_surge.Errors.{Result, ok, err}
use k8s_drain_surge.Kube.{Api, Pdb, Requirement, LabelSelector, Selector, requirements}
use k8s_drain_surge.Session.{Session, ◌>>=◌}
use k8s_drain_surge.Scaler.{pdb_covers, any_pdb_covers, find_matching_pdb}
use k8s_drain_surge.Base.Lists.{Any, All}
use k8s_drain_surge.Scaler.Matching.{SamePrint, requirements_match_iff}

module _ (c : Api) where
  -- The budget has a valid selector with a requirement, and each of its requirements prints like
  -- one of the workload's.
  pub record IsCovering (workload_reqs : List Requirement) (pdb : Pdb) : Type 0 where
    pub label_selector : LabelSelector
    pub selector : Selector
    pub given : pdb.selector ≡ some label_selector
    pub valid : c.label_selector_as_selector label_selector ≡ some selector
    pub required : requirements selector ≢ []
    pub matched : All (λ pr. Any (SamePrint c pr) workload_reqs) (requirements selector)

  pdb_covers_iff :
      (pdb : Pdb) (workload_reqs : List Requirement)
      → (pdb_covers c pdb workload_reqs ≡ true) ↔ IsCovering workload_reqs pdb
  unfolding pdb_covers
  pdb_covers_iff pdb workload_reqs = (forth pdb.selector refl, back)
    where
      forth_valid :
          (ls : LabelSelector)
          → pdb.selector ≡ some ls
          → (o : Option Selector) → c.label_selector_as_selector ls ≡ o
          → pdb_covers c pdb workload_reqs ≡ true
          → IsCovering workload_reqs pdb
      forth_valid ls g none v h = ground (arith, g, v)
      forth_valid ls g (some sel) v h =
          let m =
            (requirements_match_iff c (requirements sel) workload_reqs).0 (ground (arith, g, v)) in
          record {
            label_selector = ls;
            selector = sel;
            given = g;
            valid = v;
            required = m.0;
            matched = m.1;
          }

      forth :
          (o : Option LabelSelector)
          → pdb.selector ≡ o
          → pdb_covers c pdb workload_reqs ≡ true
          → IsCovering workload_reqs pdb
      forth none g h = ground (arith, g)
      forth (some ls) g h = forth_valid ls g (c.label_selector_as_selector ls) refl h

      back : IsCovering workload_reqs pdb → pdb_covers c pdb workload_reqs ≡ true
      back k = ground (
        arith,
        k.given,
        k.valid,
        (requirements_match_iff c (requirements k.selector) workload_reqs).1
            (k.required, k.matched),
      )

  any_pdb_covers_iff :
      (pdbs : List Pdb) (workload_reqs : List Requirement)
      → (any_pdb_covers c pdbs workload_reqs ≡ true) ↔ Any (IsCovering workload_reqs) pdbs
  unfolding any_pdb_covers
  any_pdb_covers_iff [] workload_reqs = ground arith
  any_pdb_covers_iff (pdb ∷ pdbs) workload_reqs =
      ground (arith, pdb_covers_iff pdb workload_reqs, any_pdb_covers_iff pdbs workload_reqs)

  -- The listing of the budgets answers, and one of them covers the workload.
  abbrev pub HasBudget : Result (List Pdb) → List Requirement → Type 0
  HasBudget (err _) workload_reqs = ⊥
  HasBudget (ok pdbs) workload_reqs = Any (IsCovering workload_reqs) pdbs

  -- FindMatchingPDB answers yes exactly if the budgets of the namespace can be listed and one of
  -- them has a valid selector with a requirement, all of whose requirements print like one of the
  -- workload's.
  pub find_matching_pdb_iff :
      (namespace : String) (pod_selector : Selector) (s : Session)
      → ((find_matching_pdb c namespace pod_selector s).0 ≡ ok true)
        ↔ HasBudget (c.list_pdbs s.calls namespace) (requirements pod_selector)
  unfolding find_matching_pdb ◌>>=◌
  find_matching_pdb_iff namespace pod_selector s = on_answer (c.list_pdbs s.calls namespace) refl
    where
      on_answer :
          (answer : Result (List Pdb))
          → c.list_pdbs s.calls namespace ≡ answer
          → ((find_matching_pdb c namespace pod_selector s).0 ≡ ok true)
            ↔ HasBudget answer (requirements pod_selector)
      on_answer (err e) answered = rw (answered, find_matching_pdb) (ground arith)
      on_answer (ok pdbs) answered =
          rw (answered, find_matching_pdb)
            (ground (arith, any_pdb_covers_iff pdbs (requirements pod_selector)))
