-- ===== src/Session/Keeps.antt =====
-- What every write of an action satisfies, by one rule for each way to build an action.
use k8s_drain_surge.Base.{ℕ, String, ◌≡◌, refl, Bool, true, false, List, [], ◌∷◌, if◌then◌else◌}
use k8s_drain_surge.Errors.{Error, Result, ok, err}
use k8s_drain_surge.Kube.{Api, ObjectRef, Write}
use k8s_drain_surge.Session.{
  Effect, applied, refused, event, EventType, Session, Exec, pure, fail, within, attempt, ask, emit,
  ◌>>=◌, send, record_patch,
}

-- Every patch in this history, taken by the server or not, satisfies `P`.
abbrev pub Writes : (Write → Type 0) → List Effect → Type 0
Writes P [] = Unit
Writes P (applied w ∷ es) = P w × Writes P es
Writes P (refused w ∷ es) = P w × Writes P es
Writes P (event _ _ _ ∷ es) = Writes P es

-- The action keeps the property `Q` of the history, whatever the cluster answers.
pub record Preserves {ℓ} {A : Type ℓ} (Q : List Effect → Type 0) (m : Exec A) : Type ℓ where
  pub at : (s : Session) → Q s.history → Q (m s).1.history

-- The action adds only patches that satisfy `P`.
abbrev pub Keeps {ℓ} : {A : Type ℓ} → (Write → Type 0) → Exec A → Type ℓ
Keeps P m = Preserves (Writes P) m

module _ {ℓ} {A : Type ℓ} {Q : List Effect → Type 0} where
  pub Keeps-pure : (a : A) → Preserves Q (pure a)
  unfolding ◌>>=◌
  Keeps-pure a = record { at = λ s h. h }

  pub Keeps-fail : (e : Error) → Preserves Q (fail {A = A} e)
  unfolding ◌>>=◌
  Keeps-fail e = record { at = λ s h. h }

  pub Keeps-ask : (answer : ℕ → Result A) → Preserves Q (ask answer)
  unfolding ◌>>=◌
  Keeps-ask answer = record { at = λ s h. h }

  pub Keeps-within : (text : String) (m : Exec A) → Preserves Q m → Preserves Q (within text m)
  unfolding ◌>>=◌
  Keeps-within text m k = record { at = k.at }

  pub Keeps-attempt : (m : Exec A) → Preserves Q m → Preserves Q (attempt m)
  unfolding ◌>>=◌
  Keeps-attempt m k = record { at = k.at }

module _ {P : Write → Type 0} where
  pub Keeps-emit :
      (ref : ObjectRef) (kind : EventType) (reason : String) → Keeps P (emit ref kind reason)
  unfolding ◌>>=◌
  Keeps-emit ref kind reason = record { at = λ s h. h }

  pub Keeps-send : (c : Api) (w : Write) → P w → Keeps P (send c w)
  unfolding send
  Keeps-send c w p = record { at = λ s h. sent (c.patch s.calls w) s h }
    where
      sent :
          (r : Result (Unit {0})) (s : Session)
          → Writes P s.history
          → Writes P (record_patch r w s).1.history
      sent (ok _) s h = (p, h)
      sent (err _) s h = (p, h)

module _ {ℓ} {A B : Type ℓ} {Q : List Effect → Type 0} where
  pub Keeps-bind :
      (first : Exec A) (f : A → Exec B)
      → Preserves Q first
      → ((answer : A) → Preserves Q (f answer))
      → Preserves Q (first >>= f)
  unfolding ◌>>=◌
  Keeps-bind m f km kf = record { at = λ s h. let (r, s') = m s in continue r s' (km.at s h) }
    where
      continue :
          (r : Result A) (s : Session)
          → Q s.history
          → Q (elim r as (λ _. Result B × Session) [ ok a ↦ f a s | err e ↦ (err e, s) ]).1.history
      continue (ok a) s h = (kf a).at s h
      continue (err e) s h = h

-- A conditional: each branch may use how the test came out.
pub Keeps-if {ℓ} :
    {A : Type ℓ} {Q : List Effect → Type 0} (test : Bool) (this that : Exec A)
    → (test ≡ true → Preserves Q this)
    → (test ≡ false → Preserves Q that)
    → Preserves Q (if test then this else that)
Keeps-if true this that on_true on_false = on_true refl
Keeps-if false this that on_true on_false = on_false refl

module _ {ℓ} {A B : Type ℓ} {Q : List Effect → Type 0} where
  -- The rest of the block may use that `m` has returned `a`.
  pub Keeps-bind_result :
      (m : Exec A) (f : A → Exec B)
      → Preserves Q m
      → ((s : Session) (a : A) → (m s).0 ≡ ok a → Preserves Q (f a))
      → Preserves Q (m >>= f)
  unfolding ◌>>=◌
  Keeps-bind_result m f km kf = record { at = λ s h. continue (m s).0 (m s).1 (kf s) (km.at s h) }
    where
      continue :
          (r : Result A) (s : Session)
          → ((a : A) → r ≡ ok a → Preserves Q (f a))
          → Q s.history
          → Q (elim r as (λ _. Result B × Session) [ ok a ↦ f a s | err e ↦ (err e, s) ]).1.history
      continue (ok a) s k h = (k a refl).at s h
      continue (err e) s k h = h

-- A value that is there or not: the rest of the block, or another action.
pub Keeps-result {ℓ} :
    {A B : Type ℓ} {Q : List Effect → Type 0} (answer : Result A) (rest : A → Exec B)
    (failed : Exec B)
    → Preserves Q failed
    → ((a : A) → Preserves Q (rest a))
    → Preserves Q (elim answer [ ok a ↦ rest a | err _ ↦ failed ])
Keeps-result (ok a) rest failed on_error on_value = on_value a
Keeps-result (err e) rest failed on_error on_value = on_error

pub ruleset keeps_rules = (
  Keeps-pure, Keeps-fail, Keeps-ask, Keeps-within, Keeps-attempt, Keeps-if, Keeps-emit, Keeps-send,
  Keeps-bind,
)
