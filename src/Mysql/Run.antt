-- ===== src/Mysql/Run.antt =====
-- How a run of HandleState ends: it returns, it stops the process, or the fuel of the model runs
-- out. `Leaves P r` is what holds of the result when the run returns.
use ltapp.Base.{◌≡◌, refl, subst, Bool, true, false, if◌then◌else◌}
use ltapp.Outcome.{Outcome, ok, abort, Ensures, holds, stops}

pub data Run (A : Type 0) : Type 0 where
  returned : A → Run A
  aborted : Run A
  out_of_fuel : Run A

abbrev pub of_outcome : {A : Type 0} → Outcome A → Run A
of_outcome (ok a) = returned a
of_outcome abort = aborted

-- Sequencing.
abbrev pub and_then : {A B : Type 0} → Run A → (A → Run B) → Run B
and_then (returned a) f = f a
and_then aborted f = aborted
and_then out_of_fuel f = out_of_fuel

pub data Leaves {A : Type 0} (P : A → Type 0) : Run A → Type 0 where
  leaves : {a : A} → P a → Leaves P (returned a)
  aborts : Leaves P aborted
  runs_out : Leaves P out_of_fuel

module _ {A : Type 0} {P : A → Type 0} where
  pub Leaves-if : (b : Bool) {x y : Run A} → Leaves P x → Leaves P y → Leaves P (if b then x else y)
  Leaves-if true p q = p
  Leaves-if false p q = q

  pub Leaves-returned : {r : Run A} {a : A} → Leaves P r → r ≡ returned a → P a
  Leaves-returned (leaves p) e = subst P (cc) p
  Leaves-returned aborts e = cc
  Leaves-returned runs_out e = cc

  pub Leaves-outcome : {o : Outcome A} → Ensures P o → Leaves P (of_outcome o)
  Leaves-outcome (holds p) = leaves p
  Leaves-outcome stops = aborts

module _ {A B : Type 0} {P : A → Type 0} {Q : B → Type 0} where
  pub Leaves-and_then :
      {r : Run A} {f : A → Run B}
      → Leaves P r
      → ((a : A) → P a → Leaves Q (f a))
      → Leaves Q (and_then r f)
  Leaves-and_then (leaves {a} p) h = h a p
  Leaves-and_then aborts h = aborts
  Leaves-and_then runs_out h = runs_out

pub Leaves-map :
    {A : Type 0} {P Q : A → Type 0} → ((a : A) → P a → Q a) → {r : Run A} → Leaves P r → Leaves Q r
Leaves-map h (leaves {a} p) = leaves (h a p)
Leaves-map h aborts = aborts
Leaves-map h runs_out = runs_out

-- What is left holds for every `a` if it does for each.
pub Leaves-all :
    {A B : Type 0} {P : B → A → Type 0} (r : Run A)
    → ((b : B) → Leaves (P b) r)
    → Leaves (λ x. (b : B) → P b x) r
Leaves-all (returned x) h = leaves (λ b. Leaves-returned (h b) refl)
Leaves-all aborted h = aborts
Leaves-all out_of_fuel h = runs_out
