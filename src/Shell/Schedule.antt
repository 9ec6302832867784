-- ===== src/Shell/Schedule.antt =====
-- Every schedule of the asynchronous tasks: they may run between any two rounds of the loop, and in
-- any order while the wait group waits. The result does not depend on it.
pub mod Result
pub mod Ends
use mathlib.Core.List.{Perm, perm_append_comm}
use mathlib.Core.List.Perm
use mathlib.Core.Option.{some-injective}
use ltapp.Base.{
  ℕ, zero, suc, ◌+◌, ◌-◌, ◌*◌, ◌<◌, ◌≡◌, ◌≢◌, refl, ap, sym, subst, ◌∙◌, Bool, true, false, List,
  [], ◌∷◌, ◌++◌, if◌then◌else◌, ◌==◌, Option, none, some, length, length-append, arith, ◌⊎◌, inl,
  inr, append-nil, append_assoc, Bool-cases,
}
use ltapp.Shell.Tasks.{
  BootTask, TaskRun, begin, is_async, note_failure, launch, run_async, is_empty, finish,
}

-- `l` is `l'` with `t` somewhere in it.
pub data Pick (t : BootTask) : List BootTask → List BootTask → Type 0 where
  first : {l : List BootTask} → Pick t (t ∷ l) l
  later : {x : BootTask} {l l' : List BootTask} → Pick t l l' → Pick t (x ∷ l) (x ∷ l')

pub data Step (r s : TaskRun) : Type 0 where
  launches :
      (t : BootTask) (rest : List BootTask) → r.items ≡ t ∷ rest → s ≡ launch t rest r → Step r s
  runs :
      (t : BootTask) (others : List BootTask)
      → Pick t r.posted others
      → s ≡ run_async t others r
      → Step r s
  finishes : r.items ≡ [] → r.wait_count ≡ 0 → r.result ≡ none → s ≡ finish r → Step r s

pub data Reach (r : TaskRun) : TaskRun → Type 0 where
  here : Reach r r
  next : {s u : TaskRun} → Reach r s → Step s u → Reach r u

-- The tasks that return false.
unfoldable pub failing : List BootTask → List BootTask
failing [] = []
failing (t ∷ ts) = if t.task then failing ts else t ∷ failing ts

pub failing-append : (xs ys : List BootTask) → failing (xs ++ ys) ≡ failing xs ++ failing ys
unfolding failing
failing-append [] ys = refl
failing-append (x ∷ xs) ys = ground (arith, failing-append xs ys)

pub note_failure-failing :
    (t : BootTask) (l : List BootTask) → note_failure t l ≡ l ++ failing (t ∷ [])
unfolding note_failure failing
note_failure-failing t l = ground (arith, append-nil l)

-- Two lists in front of a third change places.
pub exchange : (a b c : List BootTask) → Perm (a ++ (b ++ c)) (b ++ (a ++ c))
exchange a b c =
    subst (λ l. Perm l (b ++ (a ++ c))) (append_assoc a b c)
      (subst (λ l. Perm ((a ++ b) ++ c) l) (append_assoc b a c)
        (Perm.append_right c (perm_append_comm a b)))

pub failing-cons :
    (x : BootTask) (l : List BootTask) → failing (x ∷ l) ≡ failing (x ∷ []) ++ failing l
failing-cons x l = failing-append (x ∷ []) l

pub Pick-failing :
    {t : BootTask} {l l' : List BootTask}
    → Pick t l l'
    → Perm (failing l) (failing (t ∷ []) ++ failing l')
Pick-failing {t = t} (first {l}) = subst (λ x. Perm (failing (t ∷ l)) x) (failing-cons t l) Perm.rfl
Pick-failing {t = t} (later {x} {l} {l'} p) =
    subst (λ y. Perm y (failing (t ∷ []) ++ failing (x ∷ l'))) (sym (failing-cons x l))
      (subst (λ y. Perm (failing (x ∷ []) ++ failing l) (failing (t ∷ []) ++ y))
        (sym (failing-cons x l'))
        (Perm.trans (Perm.append_left (failing (x ∷ [])) (Pick-failing p))
          (exchange (failing (x ∷ [])) (failing (t ∷ [])) (failing l'))))

pub Pick-length : {t : BootTask} {l l' : List BootTask} → Pick t l l' → length l ≡ suc (length l')
Pick-length first = refl
Pick-length (later p) = ap suc (Pick-length p)

-- All failing tasks are counted: those that ran, those that are posted, and those to come.
pub record Inv (tasks : List BootTask) (r : TaskRun) : Type 0 where
  pub all_there : Perm (r.failed ++ (failing r.posted ++ failing r.items)) (failing tasks)
  pub counted : r.wait_count ≡ length r.posted
  pub settled :
      (b : Bool) → r.result ≡ some b → (r.items ≡ []) × (r.posted ≡ []) × (b ≡ is_empty r.failed)
