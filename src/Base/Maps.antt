-- ===== src/Base/Maps.antt =====
-- Maps from texts, the newest entry first.
use mathlib.Core.Path.{◌≡◌}
use mathlib.Core.Option.{Option, none, some}
use mathlib.Core.List.{List, [], ◌∷◌}
use native.Mathlib.Omega.{arith}
use mathlib.Core.Logic.{◌⊎◌}
use cappu.Base.Tests.{if◌then◌else◌}
use cappu.Base.Strings.{Text, text_eq, text_eq_sound}

module _ {ℓ} {A : Type ℓ} where
  unfoldable pub lookup : Text → List (Text × A) → Option A
  lookup k [] = none
  lookup k ((j, v) ∷ m) = if text_eq j k then some v else lookup k m

  pub lookup-cons :
      (k j : Text) (v w : A) (m : List (Text × A))
      → lookup k ((j, v) ∷ m) ≡ some w
      → ((j ≡ k) × (v ≡ w)) ⊎ (lookup k m ≡ some w)
  unfolding lookup
  lookup-cons k j v w m e = ground (arith, text_eq_sound j k)
