-- ===== src/Outcome.antt =====
-- Code that may stop the process: a failed CHECK or a NULL dereference is `abort`. `Ensures P o` is
-- what holds of the result when there is one, `Returns P o` says besides that there is one.
use ltapp.Base.{◌≡◌, refl, subst, Bool, true, false, if◌then◌else◌, Option, none, some, is_some}

pub data Outcome (A : Type 0) : Type 0 where
  ok : A → Outcome A
  abort : Outcome A

-- CHECK(p), and a pointer that is dereferenced.
unfoldable pub check_some : {A B : Type 0} → Option A → (A → Outcome B) → Outcome B
check_some none k = abort
check_some (some a) k = k a

infixl 5 ◌>>=◌
abbrev pub ◌>>=◌ : {A B : Type 0} → Outcome A → (A → Outcome B) → Outcome B
ok a >>= f = f a
abort >>= f = abort

pub data Ensures {A : Type 0} (P : A → Type 0) : Outcome A → Type 0 where
  holds : {a : A} → P a → Ensures P (ok a)
  stops : Ensures P abort

pub data Returns {A : Type 0} (P : A → Type 0) : Outcome A → Type 0 where
  returns : {a : A} → P a → Returns P (ok a)

module _ {A : Type 0} {P : A → Type 0} where
  pub Ensures-if :
      (b : Bool) {x y : Outcome A} → Ensures P x → Ensures P y → Ensures P (if b then x else y)
  Ensures-if true p q = p
  Ensures-if false p q = q

  pub Returns-if :
      (b : Bool) {x y : Outcome A} → Returns P x → Returns P y → Returns P (if b then x else y)
  Returns-if true p q = p
  Returns-if false p q = q

  pub Ensures-ok : {o : Outcome A} {a : A} → Ensures P o → o ≡ ok a → P a
  Ensures-ok (holds p) e = subst P (cc) p
  Ensures-ok stops e = cc

  pub Returns-ok : {o : Outcome A} → Returns P o → (a : A) × (o ≡ ok a) × P a
  Returns-ok (returns {a} p) = (a, refl, p)

pub Ensures-check :
    {A B : Type 0} {P : B → Type 0} {o : Option A} {k : A → Outcome B}
    → ((a : A) → o ≡ some a → Ensures P (k a))
    → Ensures P (check_some o k)
unfolding check_some
Ensures-check {o = none} h = stops
Ensures-check {o = some a} h = h a refl

module _ {A B : Type 0} {P : A → Type 0} {Q : B → Type 0} where
  pub Ensures-bind :
      {o : Outcome A} {f : A → Outcome B}
      → Ensures P o
      → ((a : A) → P a → Ensures Q (f a))
      → Ensures Q (o >>= f)
  Ensures-bind (holds {a} p) h = h a p
  Ensures-bind stops h = stops

  pub Returns-bind :
      {o : Outcome A} {f : A → Outcome B}
      → Returns P o
      → ((a : A) → P a → Returns Q (f a))
      → Returns Q (o >>= f)
  Returns-bind (returns {a} p) h = h a p

pub Returns-check :
    {A B : Type 0} {P : B → Type 0} {o : Option A} {k : A → Outcome B}
    → is_some o ≡ true
    → ((a : A) → o ≡ some a → Returns P (k a))
    → Returns P (check_some o k)
unfolding check_some
Returns-check {o = none} e h = cc
Returns-check {o = some a} e h = h a refl

pub Ensures-map :
    {A : Type 0} {P Q : A → Type 0}
    → ((a : A) → P a → Q a)
    → {o : Outcome A} → Ensures P o
    → Ensures Q o
Ensures-map h (holds {a} p) = holds (h a p)
Ensures-map h stops = stops

-- What is known of a result when nothing else is.
pub known : {A : Type 0} (o : Outcome A) → Ensures (λ a. o ≡ ok a) o
known (ok a) = holds refl
known abort = stops
