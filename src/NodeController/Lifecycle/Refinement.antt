-- ===== src/NodeController/Lifecycle/Refinement.antt =====
-- reconcileWorkload against the abstract machine: the server's object after it.
use k8s_drain_surge.Base.{
  ℕ, String, ◌≡◌, ◌≢◌, ◌⊎◌, inl, inr, refl, Option, none, List, [], ◌∷◌, arith, Bool-cases,
}
use k8s_drain_surge.Base.Int.{ℤ}
use k8s_drain_surge.Base.Maps.{GoMap, get}
use k8s_drain_surge.State.{drain_state, annotation_drain_state, annotation_hpa_name}
use k8s_drain_surge.Kube.{ObjectRef, workload_patch, hpa_patch, Write}
use k8s_drain_surge.Session.{Effect, applied, refused, event}
use k8s_drain_surge.Session.Keeps.{Writes}
use k8s_drain_surge.Workload.{Workload, object_ref, get_replicas, replicas_or_one}
use k8s_drain_surge.Workload.Patching.{MergePatch, Stored, stored, apply_effect, patched, same_ref}
use k8s_drain_surge.NodeController.Abort.{NodeReconciler}
use k8s_drain_surge.NodeController.Reconcile.{state_of, reconcile_workload}
use k8s_drain_surge.NodeController.Reachable.{Reach, Reach-IsRecorded}
use k8s_drain_surge.NodeController.Lifecycle.{Moves, Follows, is_managed}
use k8s_drain_surge.NodeController.Lifecycle.Reconcile.{reconcile_workload-Moves}

-- The stored object is where a move from `wl` leads.
abbrev pub Moved : Workload → Stored → Type 0
Moved wl after =
    Follows (is_managed after.annotations) (state_of wl) (get_replicas wl)
      (drain_state (get after.annotations annotation_drain_state)) (replicas_or_one after.replicas)

pub get-merge :
    (mp : MergePatch) (p : GoMap (Option String)) (a : GoMap String) (k : String)
    → p k ≢ none
    → get (mp.merge p a) k ≡ get (patched p) k
get-merge mp p a k covered = ground (arith, mp.merge_at p a k)

merged-Moved :
    (mp : MergePatch) (wl : Workload) (ref : ObjectRef) (n : Option ℤ) (p : GoMap (Option String))
    (a : GoMap String)
    → Moves wl (workload_patch ref n p)
    → Moved wl (record { replicas = n; annotations = mp.merge p a })
merged-Moved mp wl ref n p a (same, covers, f) =
    rw
      (
        get-merge mp p a annotation_hpa_name (covers _ refl),
        get-merge mp p a annotation_drain_state (covers _ refl),
      )
      f

module _ (P : Write → Type 0) (Q : Stored → Type 0) (mp : MergePatch)
    (makes : (ref : ObjectRef) (n : Option ℤ) (p : GoMap (Option String)) (a : GoMap String)
      → P (workload_patch ref n p)
      → Q (record { replicas = n; annotations = mp.merge p a })) where
  -- After patches of one kind the server's object is unchanged, or what the last of them made it.
  pub stored-either :
      (ref : ObjectRef) (st : Stored) (es : List Effect)
      → Writes P es
      → (stored mp ref st es ≡ st) ⊎ Q (stored mp ref st es)
  unfolding stored apply_effect
  stored-either ref st [] w = inl refl
  stored-either ref st (applied (workload_patch target n p) ∷ es) w =
      elim (Bool-cases (same_ref target ref)) [
        | inl hit ↦ rw hit (inr (makes target n p _ w.0))
        | inr miss ↦ rw miss (stored-either ref st es w.1)
      ]
  stored-either ref st (applied (hpa_patch ns name n) ∷ es) w = stored-either ref st es w.1
  stored-either ref st (refused _ ∷ es) w = stored-either ref st es w.1
  stored-either ref st (event _ _ _ ∷ es) w = stored-either ref st es w

-- What the server holds once the reconciler has acted on the cached workload.
abbrev pub stored_after : MergePatch → NodeReconciler → Workload → String → ℕ → Stored → Stored
stored_after mp r cached node_name calls st =
    stored mp (object_ref cached) st
      (reconcile_workload r cached node_name (record { calls = calls; history = [] })).1.history

-- Take a copy of the workload that a run of the reconciler has had at any time. Whatever the server
-- holds by now and whatever the cluster answers, reconcileWorkload on that copy leaves the server as
-- it is, or moves it as the abstract machine may move from the state and the replicas of the copy.
pub reconcile_workload-refines :
    (mp : MergePatch) (r : NodeReconciler) (cached : Workload) (node_name : String) (calls : ℕ)
    (st : Stored)
    → Reach mp r.config cached
    → let after = stored_after mp r cached node_name calls st in (after ≡ st) ⊎ Moved cached after
reconcile_workload-refines mp r cached node_name calls st reach =
    stored-either (Moves cached) (Moved cached) mp (merged-Moved mp cached) (object_ref cached) st _
      ((reconcile_workload-Moves r cached node_name (Reach-IsRecorded mp r.config cached reach)).at
        (record { calls = calls; history = [] }) tt)
