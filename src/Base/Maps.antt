-- ===== src/Base/Maps.antt =====
-- Go's map[string]V as the function that a lookup computes. A nil map reads like an empty one.
use Prim.Native.String.{String}
use mathlib.Core.Bool.{Bool, true, false}
use mathlib.Core.Option.{Option, none, some}
use text.Mathlib.Text.{◌==◌}
use k8s_drain_surge.Base.Tests.{if◌then◌else◌}

abbrev pub GoMap {ℓ} : Type ℓ → Type ℓ
GoMap V = String → Option V

module _ {ℓ} {V : Type ℓ} where
  abbrev pub empty : GoMap V
  empty k = none

  -- m[k] = v
  abbrev pub insert : String → V → GoMap V → GoMap V
  insert k v m j = if k == j then some v else m j

  -- delete(m, k)
  abbrev pub erase : String → GoMap V → GoMap V
  erase k m j = if k == j then none else m j

  -- _, exists := m[k]
  abbrev pub contains : GoMap V → String → Bool
  contains m k = elim (m k) [ none ↦ false | some _ ↦ true ]

-- m[k], which is "" where the key is missing
abbrev pub get : GoMap String → String → String
get m k = elim (m k) [ none ↦ "" | some v ↦ v ]
