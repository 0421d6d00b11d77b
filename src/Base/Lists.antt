-- ===== src/Base/Lists.antt =====
-- Predicates on lists.
use k8s_drain_surge.Base.{ℕ, zero, suc, List, [], ◌∷◌, ◌⊎◌}

-- Some, or every, element of a list satisfies `P`.
abbrev pub Any {ℓ} : {A : Type ℓ} → (A → Type 0) → List A → Type 0
Any P [] = ⊥
Any P (x ∷ xs) = P x ⊎ Any P xs

abbrev pub All {ℓ} : {A : Type ℓ} → (A → Type 0) → List A → Type 0
All P [] = Unit
All P (x ∷ xs) = P x × All P xs

-- At least so many elements of a list, at different places in it, satisfy `P`.
abbrev pub AtLeast {ℓ} : {A : Type ℓ} → ℕ → (A → Type 0) → List A → Type 0
AtLeast zero P xs = Unit
AtLeast (suc n) P [] = ⊥
AtLeast (suc n) P (x ∷ xs) = (P x × AtLeast n P xs) ⊎ AtLeast (suc n) P xs
