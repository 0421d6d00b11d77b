-- ===== src/NodeController/Collecting.antt =====
-- The list of workloads that Reconcile collects for a tainted node: its keys are distinct. The
-- children have what they are.
pub mod Sources
pub mod Taking
use k8s_drain_surge.Base.{
  String, ◌≡◌, refl, true, false, ◌||◌, Option, none, some, List, [], ◌∷◌, ◌++◌, ◌==◌, arith,
  eq_iff, Bool-cases, inl, inr,
}
use text.Mathlib.TextPositions.{eq_refl}
use k8s_drain_surge.Errors.{Result, ok, err}
use k8s_drain_surge.Kube.{Pod}
use k8s_drain_surge.Session.{Session, ◌>>=◌}
use k8s_drain_surge.Workload.{Workload}
use k8s_drain_surge.Scaler.{resolve_workload_from_pod, is_finished, is_pod_terminating}
use k8s_drain_surge.Base.Lists.{All}
use k8s_drain_surge.NodeController.Abort.{NodeReconciler}
use k8s_drain_surge.NodeController.Reconcile.{
  has_key, add_workload, add_workloads, add_resolved, add_existing, collect,
}

-- No two entries have one key.
abbrev pub IsDistinct : List (String × Workload) → Type 0
IsDistinct [] = Unit
IsDistinct ((key, wl) ∷ ws) = (has_key key ws ≡ false) × IsDistinct ws

has_key-append :
    (k key : String) (wl : Workload) (ws : List (String × Workload))
    → has_key k (ws ++ (key, wl) ∷ []) ≡ (has_key k ws || key == k)
unfolding has_key
has_key-append k key wl [] = ground arith
has_key-append k key wl ((j, w) ∷ ws) = ground (arith, has_key-append k key wl ws)

append-IsDistinct :
    (key : String) (wl : Workload) (ws : List (String × Workload))
    → has_key key ws ≡ false
    → IsDistinct ws
    → IsDistinct (ws ++ (key, wl) ∷ [])
unfolding has_key
append-IsDistinct key wl [] new d = (refl, tt)
append-IsDistinct key wl ((j, w) ∷ ws) new d = (
  ground (arith, new, d.0, has_key-append j key wl ws, eq_iff j key, eq_iff key j),
  append-IsDistinct key wl ws (ground (arith, new)) d.1,
)

add_workload-IsDistinct :
    (key : String) (wl : Workload) (ws : List (String × Workload))
    → IsDistinct ws
    → IsDistinct (add_workload key wl ws)
unfolding add_workload
add_workload-IsDistinct key wl ws d = elim (Bool-cases (has_key key ws)) [
  | inl there ↦ rw there d
  | inr new ↦ rw new (append-IsDistinct key wl ws new d)
]

-- A key stays, and the key that is added is there.
pub has_key-add_workload :
    (k key : String) (wl : Workload) (ws : List (String × Workload))
    → has_key k (add_workload key wl ws) ≡ (has_key k ws || key == k)
unfolding add_workload
has_key-add_workload k key wl ws = elim (Bool-cases (has_key key ws)) [
  | inl there ↦ rw there (ground (arith, there, eq_iff key k))
  | inr new ↦ rw new (has_key-append k key wl ws)
]

pub add_workloads-IsDistinct :
    (more ws : List (String × Workload)) → IsDistinct ws → IsDistinct (add_workloads more ws)
unfolding add_workloads
add_workloads-IsDistinct [] ws d = d
add_workloads-IsDistinct ((key, wl) ∷ more) ws d =
    add_workloads-IsDistinct more _ (add_workload-IsDistinct key wl ws d)

-- The keys of both are there, and no other.
pub has_key-add_workloads :
    (more ws : List (String × Workload)) (k : String)
    → has_key k (add_workloads more ws) ≡ (has_key k ws || has_key k more)
unfolding add_workloads has_key
has_key-add_workloads [] ws k = ground arith
has_key-add_workloads ((key, wl) ∷ more) ws k =
    ground (
      arith,
      has_key-add_workloads more (add_workload key wl ws) k,
      has_key-add_workload k key wl ws,
    )

add_resolved-IsDistinct :
    (answer : Result (Option Workload)) (ws : List (String × Workload))
    → IsDistinct ws
    → IsDistinct (add_resolved answer ws)
add_resolved-IsDistinct (ok (some wl)) ws d = add_workload-IsDistinct _ wl ws d
add_resolved-IsDistinct (ok none) ws d = d
add_resolved-IsDistinct (err e) ws d = d

pub collect-IsDistinct :
    (r : NodeReconciler) (pods : List Pod) (ws : List (String × Workload)) (s : Session)
    → IsDistinct ws
    → (found : List (String × Workload)) × ((collect r pods ws s).0 ≡ ok found) × IsDistinct found
unfolding collect ◌>>=◌
collect-IsDistinct r [] ws s d = (ws, refl, d)
collect-IsDistinct r (pod ∷ pods) ws s d =
    elim (Bool-cases (is_finished pod || is_pod_terminating pod)) [
      | inl skip ↦ rw skip (collect-IsDistinct r pods ws s d)
      | inr live ↦ rw live (
          collect-IsDistinct r pods (add_resolved (resolve_workload_from_pod r.client pod s).0 ws)
            (resolve_workload_from_pod r.client pod s).1
            (add_resolved-IsDistinct (resolve_workload_from_pod r.client pod s).0 ws d))
    ]
