-- ===== src/Session/Retries.antt =====
-- A step of the system that is tried again: rounds that fail before one that does not.
use k8s_drain_surge.Base.{ℕ, ◌≡◌, refl, sym, ap, fun_ext, ◌∙◌, List, [], ◌∷◌}
use k8s_drain_surge.Base.Lists.{All}

module _ {ℓ} {R S : Type ℓ} (step : R → S → S) where
  -- What the rounds make of the state, in turn.
  unfoldable pub in_turn : List R → S → S
  in_turn [] s = s
  in_turn (round ∷ rounds) s = in_turn rounds (step round s)

  -- The round that takes step number `i`, after the rounds that have tried to.
  abbrev pub retried : (ℕ → List R) → ℕ → R → S → S
  retried tries i round s = step round (in_turn (tries i) s)

-- Rounds that leave every state as it is do so in turn.
in_turn-idle {ℓ} :
    {R S : Type ℓ} (step : R → S → S) (Fails : R → Type 0)
    → ((round : R) (s : S) → Fails round → step round s ≡ s)
    → (rounds : List R) → All Fails rounds
    → (s : S) → in_turn step rounds s ≡ s
unfolding in_turn
in_turn-idle step Fails idles [] fail s = refl
in_turn-idle step Fails idles (round ∷ rounds) fail s =
    in_turn-idle step Fails idles rounds fail.1 (step round s) ∙ idles round s fail.0

-- The rounds that have failed leave no trace.
pub retried-idle {ℓ} :
    {R S : Type ℓ} (step : R → S → S) (Fails : R → Type 0)
    → ((round : R) (s : S) → Fails round → step round s ≡ s)
    → (tries : ℕ → List R) → ((i : ℕ) → All Fails (tries i))
    → (λ i. step) ≡ retried step tries
retried-idle step Fails idles tries fail = fun_ext λ i.
    fun_ext λ round.
      fun_ext λ s. ap (step round) (sym (in_turn-idle step Fails idles (tries i) (fail i) s))
