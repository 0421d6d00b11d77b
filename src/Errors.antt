-- ===== src/Errors.antt =====
-- Go's `error` values and the pair (value, error) that a function returns.
use k8s_drain_surge.Base.{String, Bool, true, false}

-- `wrapped` is fmt.Errorf with %w, and `joined` is errors.Join. The texts are those of the source,
-- without the formatted operands.
pub data Error : Type 0 where
  not_found : Error
  api : String → Error
  invalid : String → Error
  wrapped : String → Error → Error
  joined : Error → Error → Error

pub data Result {ℓ} (A : Type ℓ) : Type ℓ where
  ok : A → Result A
  err : Error → Result A

-- apierrors.IsNotFound, on errors that a Get returns unwrapped
abbrev pub is_not_found : Error → Bool
is_not_found not_found = true
is_not_found _ = false

abbrev pub with_context {ℓ} : {A : Type ℓ} → String → Result A → Result A
with_context text (ok a) = ok a
with_context text (err e) = err (wrapped text e)
