-- ===== src/Base/Maps.antt =====
-- Maps from handles to values, as association lists in the order in which keys were first
-- inserted.
use Prim.Native.Nat.{ℕ}
use mathlib.Core.Path.{◌≡◌, refl}
use mathlib.Core.Option.{Option, none, some}
use mathlib.Core.List.{List, [], ◌∷◌, map}
use native.Mathlib.Omega.{arith}
use cutie_rhi.Base.Tests.{◌==◌, if◌then◌else◌}

module _ {ℓ} {V : Type ℓ} where
  unfoldable pub lookup : ℕ → List (ℕ × V) → Option V
  lookup key [] = none
  lookup key ((k, value) ∷ rest) = if k == key then some value else lookup key rest

  unfoldable pub insert : ℕ → V → List (ℕ × V) → List (ℕ × V)
  insert key value [] = (key, value) ∷ []
  insert key value ((k, old) ∷ rest) =
      if k == key then (key, value) ∷ rest else (k, old) ∷ insert key value rest

  abbrev pub keys : List (ℕ × V) → List ℕ
  keys m = map (λ e. e.0) m

  pub lookup-insert :
      (key other : ℕ) (value : V) (entries : List (ℕ × V))
      → lookup other (insert key value entries)
        ≡ (if key == other then some value else lookup other entries)
  unfolding insert lookup
  lookup-insert key other value ((first, found) ∷ rest) =
      ground (arith, lookup-insert key other value rest)
  lookup-insert key other value [] = refl
