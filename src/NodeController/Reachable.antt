-- ===== src/NodeController/Reachable.antt =====
-- Runs of the node reconciler on one workload, with stale caches and changes from outside.
use k8s_drain_surge.Base.{
  ℕ, String, ◌≡◌, ◌≢◌, refl, true, Option, List, [], ◌∷◌, arith, Bool-cases, inl, inr,
}
use k8s_drain_surge.Base.Maps.{GoMap}
use k8s_drain_surge.Config.{Config}
use k8s_drain_surge.State.{
  annotation_drain_state, annotation_drain_node, annotation_original_replicas, DrainState,
  get_original_replicas,
}
use k8s_drain_surge.Kube.{Api, ObjectRef, workload_patch, hpa_patch}
use k8s_drain_surge.Session.{Effect, applied, refused, event}
use k8s_drain_surge.Session.Keeps.{Writes}
use k8s_drain_surge.Workload.{Workload, annotations, object_ref, spec_replicas}
use k8s_drain_surge.Workload.Patching.{
  MergePatch, Stored, apply_effect, stored, is_owned, patched, same_ref,
}
use k8s_drain_surge.NodeController.Reconcile.{state_of, reconcile_workload}
use k8s_drain_surge.NodeController.Recorded.{IsFine, Fine}
use k8s_drain_surge.NodeController.Recorded.Laws.{IsRecorded, IsRecorded-Bookkeeping}
use k8s_drain_surge.NodeController.Recorded.Reconcile.{reconcile_workload-Keeps}

-- Two annotation maps agree on the keys that the controller owns.
abbrev pub AgreeOnOwned : GoMap String → GoMap String → Type 0
AgreeOnOwned m n = (k : String) → is_owned k ≡ true → m k ≡ n k

-- What is recorded depends on the owned keys alone.
IsRecorded-AgreeOnOwned : (m n : GoMap String) → AgreeOnOwned m n → IsRecorded m → IsRecorded n
unfolding get_original_replicas
IsRecorded-AgreeOnOwned m n same h = ground (
  arith,
  h,
  same annotation_drain_state refl,
  same annotation_drain_node refl,
  same annotation_original_replicas refl,
)

-- A property of the owned keys alone.
abbrev pub OnOwned : (GoMap String → Type 0) → Type 0
OnOwned R = (m n : GoMap String) → AgreeOnOwned m n → R m → R n

merge-kept :
    {R : GoMap String → Type 0}
    → OnOwned R
    → (mp : MergePatch) (p : GoMap (Option String)) (a : GoMap String) → IsFine R p
    → R (mp.merge p a)
merge-kept on_owned mp p a fine =
    on_owned (patched p) (mp.merge p a)
      (λ k owned. ground (arith, mp.merge_at p a k, fine.covers k owned)) fine.recorded

-- Patches that keep a property of the owned keys keep it of the server's object.
pub stored-kept :
    {R : GoMap String → Type 0}
    → OnOwned R
    → (mp : MergePatch) (ref : ObjectRef) (st : Stored) (es : List Effect) → Writes (Fine R) es
    → R st.annotations
    → R (stored mp ref st es).annotations
unfolding stored apply_effect
stored-kept o mp ref st [] w h = h
stored-kept {R = R} o mp ref st (applied (workload_patch target n p) ∷ es) w h =
    elim (Bool-cases (same_ref target ref)) [
      | inl hit ↦ rw hit (merge-kept {R = R} o mp p _ w.0)
      | inr miss ↦ rw miss (stored-kept {R = R} o mp ref st es w.1 h)
    ]
stored-kept o mp ref st (applied (hpa_patch ns name n) ∷ es) w h = stored-kept o mp ref st es w.1 h
stored-kept o mp ref st (refused _ ∷ es) w h = stored-kept o mp ref st es w.1 h
stored-kept o mp ref st (event _ _ _ ∷ es) w h = stored-kept o mp ref st es w h

abbrev pub view : Workload → Stored
view wl = record { replicas = spec_replicas wl; annotations = annotations wl }

-- The workload as the server holds it, along a run. The reconciler acts on a copy from its cache,
-- which may be any earlier state of the workload; the cluster answers as it likes. Everything but
-- the owned annotations may change at any time.
pub data Reach (mp : MergePatch) (config : Config) : Workload → Type 0 where
  start : (wl : Workload) → state_of wl ≡ DrainState.none → Reach mp config wl
  changed :
      (server next : Workload)
      → Reach mp config server
      → AgreeOnOwned (annotations server) (annotations next)
      → Reach mp config next
  reconciled :
      (c : Api) (calls : ℕ) (node_name : String) (cached server next : Workload)
      → Reach mp config cached
      → Reach mp config server
      → node_name ≢ ""
      → AgreeOnOwned
          (stored mp
            (object_ref cached)
            (view server)
            (reconcile_workload
              (record { client = c; config = config })
              cached
              node_name
              (record { calls = calls; history = [] })).1.history).annotations
          (annotations next)
      → Reach mp config next

none-IsRecorded : (wl : Workload) → state_of wl ≡ DrainState.none → IsRecorded (annotations wl)
none-IsRecorded wl e = ground arith

-- In every run of the node reconciler that begins with no drain recorded and in which nobody else
-- changes the owned annotations, with stale caches, failing calls and other changes from outside, a
-- drain that the annotations record is in a state that the controller writes, names its node, and
-- has 1 as the original replica count.
pub Reach-IsRecorded :
    (mp : MergePatch) (config : Config) (wl : Workload)
    → Reach mp config wl
    → IsRecorded (annotations wl)
Reach-IsRecorded mp config wl (start _ e) = none-IsRecorded wl e
Reach-IsRecorded mp config wl (changed server next rs same) =
    IsRecorded-AgreeOnOwned _ _ same (Reach-IsRecorded mp config server rs)
Reach-IsRecorded mp config wl (reconciled c calls node_name cached server next rc rs named same) =
    IsRecorded-AgreeOnOwned _ _ same (
      stored-kept IsRecorded-AgreeOnOwned mp (object_ref cached) (view server) _
        ((reconcile_workload-Keeps IsRecorded-Bookkeeping (record { client = c; config = config })
            cached node_name named (Reach-IsRecorded mp config cached rc)).at
          (record { calls = calls; history = [] }) tt)
        (Reach-IsRecorded mp config server rs))
