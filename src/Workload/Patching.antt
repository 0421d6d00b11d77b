-- ===== src/Workload/Patching.antt =====
-- What the API server holds after the patches of a run, and that a patch carries the object over.
use k8s_drain_surge.Base.{
  String, ◌≡◌, ◌≢◌, Bool, true, ◌&&◌, Option, none, some, List, [], ◌∷◌, ◌==◌, arith, if◌then◌else◌,
}
use k8s_drain_surge.Base.Int.{ℤ}
use k8s_drain_surge.Base.Maps.{GoMap}
use k8s_drain_surge.State.{drain_annotation_keys, mem_key}
use k8s_drain_surge.Kube.{ObjectRef, workload_patch}
use k8s_drain_surge.Session.{Effect, applied}
use k8s_drain_surge.Workload.{annotation_patch}

-- How the server applies a merge patch to annotations, as RFC 7386 has it: a value is set, null
-- deletes, and a key that the patch lacks stays.
pub record MergePatch : Type 0 where
  pub merge : GoMap (Option String) → GoMap String → GoMap String
  pub merge_at :
      (p : GoMap (Option String)) (a : GoMap String) (k : String)
      → merge p a k ≡ elim (p k) [ none ↦ a k | some v ↦ v ]

-- Is it one of the annotations that the controller owns?
abbrev pub is_owned : String → Bool
is_owned k = mem_key drain_annotation_keys k

-- A patch leaves the server with the local value of every owned key, present or absent, and of
-- every other key that the local map has; a foreign key that the local map lacks stays as it was.
pub merge-annotation_patch :
    (mp : MergePatch) (m a : GoMap String) (k : String)
    → mp.merge (annotation_patch m) a k
      ≡ elim (m k) [ some v ↦ some v | none ↦ if is_owned k then none else a k ]
unfolding annotation_patch
merge-annotation_patch mp m a k = ground (arith, mp.merge_at (annotation_patch m) a k)

-- The annotations and spec.replicas of one workload in the server.
pub record Stored : Type 0 where
  pub replicas : Option ℤ
  pub annotations : GoMap String

abbrev pub same_ref : ObjectRef → ObjectRef → Bool
same_ref a b = a.kind == b.kind && (a.namespace == b.namespace && a.name == b.name)

module _ (mp : MergePatch) (ref : ObjectRef) where
  -- One effect, on the workload that `ref` names.
  unfoldable pub apply_effect : Effect → Stored → Stored
  apply_effect (applied (workload_patch target replicas p)) st =
      if same_ref target ref
      then record { replicas = replicas; annotations = mp.merge p st.annotations }
      else st
  apply_effect _ st = st

  -- The workload after the effects of a history, the last effect first.
  unfoldable pub stored : Stored → List Effect → Stored
  unfolding apply_effect
  stored st [] = st
  stored st (e ∷ es) = apply_effect e (stored st es)

-- The value that a patch gives a key; a key that it lacks counts as absent.
abbrev pub patched : GoMap (Option String) → GoMap String
patched p k = elim (p k) [ none ↦ none | some v ↦ v ]

-- The patch says something of every owned key.
abbrev pub Covers : GoMap (Option String) → Type 0
Covers p = (k : String) → is_owned k ≡ true → p k ≢ none

pub annotation_patch-Covers : (m : GoMap String) → Covers (annotation_patch m)
unfolding annotation_patch
annotation_patch-Covers m k owned absent = ground arith
