-- ===== src/Session/Refused.antt =====
-- Runs in which the API server refuses every patch: what they add to a history changes nothing in it.
use k8s_drain_surge.Base.{ℕ, String, ◌≡◌, refl, List, [], ◌∷◌}
use k8s_drain_surge.Errors.{Error, Result, err}
use k8s_drain_surge.Kube.{Api, ObjectRef, Write}
use k8s_drain_surge.Session.{Effect, applied, refused, event, EventType, Session, emit, ◌>>=◌, send}
use k8s_drain_surge.Session.Keeps.{
  Preserves, Keeps-pure, Keeps-fail, Keeps-ask, Keeps-within, Keeps-attempt, Keeps-if, Keeps-bind,
}
use k8s_drain_surge.Workload.Patching.{MergePatch, Stored, stored, apply_effect}

-- The cluster refuses every patch.
abbrev pub Refuses : Api → Type 0
Refuses c = (k : ℕ) (w : Write) → (e : Error) × (c.patch k w ≡ err e)

-- The server has taken none of the patches in this history.
abbrev pub Unapplied : List Effect → Type 0
Unapplied [] = Unit
Unapplied (applied w ∷ es) = ⊥
Unapplied (refused w ∷ es) = Unapplied es
Unapplied (event _ _ _ ∷ es) = Unapplied es

-- The server takes no patch of the action.
abbrev pub Inert {ℓ} : {A : Type ℓ} → (Session → Result A × Session) → Type ℓ
Inert m = Preserves Unapplied m

pub emit-Inert :
    (ref : ObjectRef) (kind : EventType) (reason : String) → Inert (emit ref kind reason)
unfolding ◌>>=◌
emit-Inert ref kind reason = record { at = λ s h. h }

pub send-Inert : (c : Api) (w : Write) → Refuses c → Inert (send c w)
unfolding send
send-Inert c w refuses = record { at = λ s h. rw ((refuses s.calls w).1) h }

-- What the server holds is as it was.
pub stored-Unapplied :
    (mp : MergePatch) (ref : ObjectRef) (st : Stored) (es : List Effect)
    → Unapplied es
    → stored mp ref st es ≡ st
unfolding stored apply_effect
stored-Unapplied mp ref st [] h = refl
stored-Unapplied mp ref st (applied w ∷ es) h = absurd h
stored-Unapplied mp ref st (refused w ∷ es) h = stored-Unapplied mp ref st es h
stored-Unapplied mp ref st (event _ _ _ ∷ es) h = stored-Unapplied mp ref st es h

-- One rule for each way to build an action, but for the patches of a client that refuses them.
pub ruleset inert_rules = (
  Keeps-pure, Keeps-fail, Keeps-ask, Keeps-within, Keeps-attempt, Keeps-if, Keeps-bind, emit-Inert,
)
