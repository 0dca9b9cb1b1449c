-- ===== src/Prelude/Maps.antt =====
-- Go maps with text keys: association lists in the order of their insertions.
use mathlib.Core.Path.{◌≡◌, refl}
use mathlib.Core.Option.{Option, none, some}
use mathlib.Core.List.{List, [], ◌∷◌}
use Prim.Native.String.{String}
use native.Mathlib.Omega.{arith}
use text.Mathlib.TextEquality.{eq_iff}
use osde2e.Prelude.Tests.{if◌then◌else◌, Bool-cases}
use osde2e.Prelude.Lists.{Any}
use mathlib.Core.Logic.{◌⊎◌, inl, inr}
use osde2e.Prelude.Text.{str_eq}

module _ {ℓ} {V : Type ℓ} where
  unfoldable pub lookup : String → List (String × V) → Option V
  lookup k [] = none
  lookup k ((j, v) ∷ m) = if str_eq j k then some v else lookup k m

  unfoldable pub assign : String → V → List (String × V) → List (String × V)
  assign k v [] = (k, v) ∷ []
  assign k v ((j, w) ∷ m) = if str_eq j k then (j, v) ∷ m else (j, w) ∷ assign k v m

  pub lookup-assign :
      (k j : String) (v : V) (m : List (String × V))
      → lookup j (assign k v m) ≡ (if str_eq k j then some v else lookup j m)
  unfolding lookup assign
  lookup-assign k j v [] = refl
  lookup-assign k j v ((i, w) ∷ m) =
      ground (arith, eq_iff k j, eq_iff i k, eq_iff i j, lookup-assign k j v m)

  -- A key is missing, or it is the key of an entry.
  pub lookup_cases :
      (k : String) (m : List (String × V)) → (lookup k m ≡ none) ⊎ Any (λ e. e.0 ≡ k) m
  unfolding lookup
  lookup_cases k [] = inl refl
  lookup_cases k ((j, v) ∷ m) = elim (Bool-cases (str_eq j k)) [
    | inl e ↦ inr (inl ((eq_iff j k).0 e))
    | inr e ↦ elim (lookup_cases k m) [ inl h ↦ inl (rw e h) | inr h ↦ inr (inr h) ]
  ]
