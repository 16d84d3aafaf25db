-- ===== src/Prelude/Sets.antt =====
-- Python's sets of numbers, as lists, and ranges of them.
use Prim.Native.Nat.{ℕ}
use mathlib.Core.Path.{◌≡◌, refl}
use mathlib.Core.Logic.{◌≢◌}
use mathlib.Core.Bool.{Bool, true, false, not, ◌&&◌, ◌||◌}
use mathlib.Core.List.{List, [], ◌∷◌, ◌++◌}
use native.Mathlib.Omega.{arith}
use silkjam.Prelude.Tests.{◌==◌, if◌then◌else◌}

-- `x in xs`
unfoldable pub mem : ℕ → List ℕ → Bool
mem x [] = false
mem x (y ∷ ys) = (x == y) || mem x ys

-- No number stands twice.
unfoldable pub distinct : List ℕ → Bool
unfolding mem
distinct [] = true
distinct (x ∷ xs) = not (mem x xs) && distinct xs

unfoldable pub discard : ℕ → List ℕ → List ℕ
discard x [] = []
discard x (y ∷ ys) = let rest = discard x ys in if x == y then rest else y ∷ rest

pub mem-discard : (x : ℕ) (ys : List ℕ) → mem x (discard x ys) ≡ false
unfolding mem discard
mem-discard x [] = refl
mem-discard x (y ∷ ys) = ground (arith, mem-discard x ys)

pub mem-discard_other : (x z : ℕ) (ys : List ℕ) → x ≢ z → mem x (discard z ys) ≡ mem x ys
unfolding mem discard
mem-discard_other x z [] h = refl
mem-discard_other x z (y ∷ ys) h = ground (arith, mem-discard_other x z ys)

pub mem-append : (x : ℕ) (xs ys : List ℕ) → mem x (xs ++ ys) ≡ (mem x xs || mem x ys)
unfolding mem
mem-append x [] ys = refl
mem-append x (y ∷ xs) ys = ground (arith, mem-append x xs ys)
