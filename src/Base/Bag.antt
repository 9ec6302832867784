-- ===== src/Base/Bag.antt =====
-- Lists of numbers up to their order: what matters is how often each one is there.
use mathlib.Core.Path.{◌≡◌}
use mathlib.Core.List.{List, ◌∷◌}
use mathlib.Core.Quot
use mathlib.Core.Quot.{Quot, Quot-set}
use native.Mathlib.Omega.{arith}
use Prim.Native.Nat.{ℕ}
use ltapp.Base.Count.{count}

abbrev pub AsOften : List ℕ → List ℕ → Type 0
AsOften xs ys = (a : ℕ) → count a xs ≡ count a ys

abbrev pub Bag : Type 0
Bag = Quot AsOften

abbrev pub bag : List ℕ → Bag
bag = Quot.mk

pub bag-eq : {xs ys : List ℕ} → AsOften xs ys → bag xs ≡ bag ys
bag-eq = Quot.sound

-- One more of `q`.
unfoldable pub with_one : ℕ → Bag → Bag
with_one q = Quot.lift Quot-set (λ qs. bag (q ∷ qs)) λ xs ys same. bag-eq λ a. omega (arith, same a)
