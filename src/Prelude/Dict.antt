-- ===== src/Prelude/Dict.antt =====
-- Python's `dict` with numbers for keys, as the list of its items in insertion order.
use Prim.Native.Nat.{ℕ}
use mathlib.Core.Path.{◌≡◌, refl}
use mathlib.Core.Logic.{◌≢◌}
use mathlib.Core.List.{List, [], ◌∷◌}
use mathlib.Core.Option.{Option, none, some}
use native.Mathlib.Omega.{arith}
use silkjam.Prelude.Tests.{◌==◌, if◌then◌else◌}

module _ {ℓ} {A : Type ℓ} where
  unfoldable pub lookup : ℕ → List (ℕ × A) → Option A
  lookup k [] = none
  lookup k ((k', a) ∷ d) = if k == k' then some a else lookup k d

  -- `d[k] = a`: in the place of an earlier value, otherwise at the end.
  unfoldable pub store : ℕ → A → List (ℕ × A) → List (ℕ × A)
  store k a [] = (k, a) ∷ []
  store k a ((k', a') ∷ d) = if k == k' then (k, a) ∷ d else (k', a') ∷ store k a d

  -- `del d[k]`
  unfoldable pub remove : ℕ → List (ℕ × A) → List (ℕ × A)
  remove k [] = []
  remove k ((k', a') ∷ d) = let rest = remove k d in if k == k' then rest else (k', a') ∷ rest

  pub lookup-store : (k : ℕ) (a : A) (d : List (ℕ × A)) → lookup k (store k a d) ≡ some a
  unfolding lookup store
  lookup-store k a [] = ground arith
  lookup-store k a ((k', a') ∷ d) = ground (arith, lookup-store k a d)

  pub lookup-store_other :
      (j k : ℕ) (a : A) (d : List (ℕ × A)) → j ≢ k → lookup j (store k a d) ≡ lookup j d
  unfolding lookup store
  lookup-store_other j k a [] h = ground arith
  lookup-store_other j k a ((k', a') ∷ d) h = ground (arith, lookup-store_other j k a d)

  pub lookup-remove : (k : ℕ) (d : List (ℕ × A)) → lookup k (remove k d) ≡ none
  unfolding lookup remove
  lookup-remove k [] = refl
  lookup-remove k ((k', a') ∷ d) = ground (arith, lookup-remove k d)

  pub lookup-remove_other :
      (j k : ℕ) (d : List (ℕ × A)) → j ≢ k → lookup j (remove k d) ≡ lookup j d
  unfolding lookup remove
  lookup-remove_other j k [] h = refl
  lookup-remove_other j k ((k', a') ∷ d) h = ground (arith, lookup-remove_other j k d)

  pub store-same : (k : ℕ) (a : A) (d : List (ℕ × A)) → store k a (store k a d) ≡ store k a d
  unfolding store
  store-same k a [] = ground arith
  store-same k a ((k', a') ∷ d) = ground (arith, store-same k a d)
