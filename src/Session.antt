-- ===== src/Session.antt =====
-- One run of the controller against the cluster: the calls made so far, and what the calls that
-- change something have done. A method of the source that returns an error is an action of `Exec`.
pub mod Keeps
pub mod Refused
pub mod Retries
use k8s_drain_surge.Base.{ℕ, suc, String, List, ◌∷◌, Bool, true, false, ◌≡◌, refl, ap}
use k8s_drain_surge.Errors.{Error, Result, ok, err, with_context}
use k8s_drain_surge.Kube.{Api, Write, ObjectRef, Time}

pub data EventType : Type 0 where
  normal warning : EventType

-- `applied` and `refused` are patches that the API server took or not; `event` is Recorder.Eventf
-- with its reason.
pub data Effect : Type 0 where
  applied : Write → Effect
  refused : Write → Effect
  event : ObjectRef → EventType → String → Effect

pub record Session : Type 0 where
  pub calls : ℕ
  -- the last effect first
  pub history : List Effect

abbrev pub Exec {ℓ} : Type ℓ → Type ℓ
Exec A = Session → Result A × Session

module _ {ℓ} {A : Type ℓ} where
  pub pure : A → Exec A
  pure a s = (ok a, s)

  pub fail : Error → Exec A
  fail e s = (err e, s)

  -- the error of `m`, with the text of fmt.Errorf
  pub within : String → Exec A → Exec A
  within text m s = let (r, s') = m s in (with_context text r, s')

  -- `m`, with its error handed over as a value
  pub attempt : Exec A → Exec (Result A)
  attempt m s = let (r, s') = m s in (ok r, s')

  -- one call of the client, which answers by the position of the call
  pub ask : (ℕ → Result A) → Exec A
  ask answer s = (answer s.calls, record s { calls = suc s.calls })

-- r.Recorder.Eventf
pub emit : ObjectRef → EventType → String → Exec (Unit {0})
emit ref kind reason s = (ok tt, record s { history = event ref kind reason ∷ s.history })

infixl 5 ◌>>=◌ ◌>>◌
-- To unfold this is to unfold the other actions too.
unfoldable pub ◌>>=◌ {ℓ} : {A B : Type ℓ} → Exec A → (A → Exec B) → Exec B
unfolding pure fail within attempt ask emit
◌>>=◌ m f s = let (r, s') = m s in elim r [ ok a ↦ f a s' | err e ↦ (err e, s') ]

-- What a sequence does once its first action has answered.
pub bind_ok {ℓ} :
    {A B : Type ℓ} (m : Exec A) {s s' : Session} {a : A} (f : A → Exec B)
    → m s ≡ (ok a, s')
    → (m >>= f) s ≡ f a s'
unfolding ◌>>=◌
bind_ok m f h = ap (λ p. elim p.0 [ ok a ↦ f a p.1 | err e ↦ (err e, p.1) ]) h

pub pure-history {ℓ} : {A : Type ℓ} (a : A) (s : Session) → (pure a s).1.history ≡ s.history
unfolding ◌>>=◌
pure-history a s = refl

pub bind_err {ℓ} :
    {A B : Type ℓ} (m : Exec A) {s s' : Session} {e : Error} (f : A → Exec B)
    → m s ≡ (err e, s')
    → (m >>= f) s ≡ (err e, s')
unfolding ◌>>=◌
bind_err m f h = ap (λ p. elim p.0 [ ok a ↦ f a p.1 | err e ↦ (err e, p.1) ]) h

-- An action that only computes from the answer of the one before it leaves the session to that.
pub bind-pure :
    {A B : Type 0} (m : Exec A) (f : A → B) (s : Session) → ((m >>= λ a. pure (f a)) s).1 ≡ (m s).1
unfolding ◌>>=◌
bind-pure {A = A} {B = B} m f s = at (m s).0
  where
    at :
        (answer : Result A)
        → (elim answer as (λ _. Result B × Session) [
          | ok a ↦ (ok (f a), (m s).1)
          | err e ↦ (err e, (m s).1)
        ]).1
          ≡ (m s).1
    at (ok a) = refl
    at (err e) = refl

-- `attempt` hands the answer over as a value.
pub attempted : {A : Type 0} (m : Exec A) (s : Session) → attempt m s ≡ (ok (m s).0, (m s).1)
unfolding ◌>>=◌
attempted m s = refl

abbrev pub ◌>>◌ {ℓ} : {A B : Type ℓ} → Exec A → Exec B → Exec B
m >> k = m >>= λ _. k

abbrev pub record_patch : Result (Unit {0}) → Write → Session → Result (Unit {0}) × Session
record_patch (ok _) w s = (ok tt, record s { calls = suc s.calls; history = applied w ∷ s.history })
record_patch (err e) w s =
    (err e, record s { calls = suc s.calls; history = refused w ∷ s.history })

-- c.Patch
unfoldable pub send : Api → Write → Exec (Unit {0})
send c w s = record_patch (c.patch s.calls w) w s

-- time.Now()
abbrev pub read_clock : Api → Exec Time
read_clock c = ask (λ n. ok (c.now n))
