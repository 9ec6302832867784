-- ===== src/Base/Count.antt =====
-- How often a number stands in a list, and lists changed at a position.
use Prim.Native.Nat.{ℕ, zero, suc, ◌+◌}
use mathlib.Core.Path.{◌≡◌}
use mathlib.Core.Bool.{Bool}
use mathlib.Core.List.{List, [], ◌∷◌, ◌++◌}
use mathlib.Core.Option.{Option, none, some}
use native.Mathlib.Omega.{arith}
use ltapp.Base.Tests.{◌==◌, if◌then◌else◌}

abbrev one_if : Bool → ℕ
one_if b = if b then 1 else 0

abbrev pub count : ℕ → List ℕ → ℕ
count n (m ∷ ms) = count n ms + one_if (m == n)
count n [] = 0

-- A list in two parts.
pub count-append :
    (n : ℕ) (front back : List ℕ) → count n back + count n front ≡ count n (front ++ back)
count-append n (m ∷ front) back = let rest = count-append n front back in omega (arith, rest)
count-append n [] back = omega arith

-- Nothing is changed out of range.
abbrev pub set_elem {ℓ} : {A : Type ℓ} → List A → ℕ → A → List A
set_elem [] i a = []
set_elem (x ∷ xs) zero a = a ∷ xs
set_elem (x ∷ xs) (suc i) a = x ∷ set_elem xs i a

-- The element at a position, with the others.
abbrev pub take_at {ℓ} : {A : Type ℓ} → List A → ℕ → Option (A × List A)
take_at [] i = none
take_at (x ∷ xs) zero = some (x, xs)
take_at (x ∷ xs) (suc i) = elim (take_at xs i) [ none ↦ none | some (a, rest) ↦ some (a, x ∷ rest) ]
