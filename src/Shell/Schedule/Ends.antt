-- ===== src/Shell/Schedule/Ends.antt =====
-- No schedule of the tasks of content/shell/application.cc blocks, and each one ends.
use ltapp.Base.{
  ℕ, ◌+◌, ◌*◌, ◌<◌, ◌≤◌, zero, suc, Bool, Option-cases, ◌≡◌, refl, ap, sym, subst, List, [], ◌∷◌,
  none, some, length, length-append, arith, inl, inr, Bool-cases,
}
use ltapp.Shell.Tasks.{BootTask, TaskRun, begin, is_async, launch, run_async, finish}
use ltapp.Shell.Schedule.{
  Pick, first, Step, launches, runs, finishes, Reach, here, next, Pick-length,
}
use ltapp.Shell.Schedule.Result.{begin-Inv, Reach-Inv}

step_from :
    (r : TaskRun) (items posted : List BootTask)
    → r.items ≡ items
    → r.posted ≡ posted
    → r.wait_count ≡ length posted
    → r.result ≡ none
    → (u : TaskRun) × Step r u
step_from r (t ∷ rest) posted i p w n = (launch t rest r, launches t rest i refl)
step_from r [] (t ∷ others) i p w n =
    (run_async t others r, runs t others (subst (λ l. Pick t l others) (sym p) first) refl)
step_from r [] [] i p w n = (finish r, finishes i w n refl)

-- As long as there is no result, some step can be taken, whatever was scheduled before.
run_tasks-progress :
    (tasks : List BootTask) (s : TaskRun)
    → Reach (begin tasks) s
    → s.result ≡ none
    → (u : TaskRun) × Step s u
run_tasks-progress tasks s p n =
    let v = Reach-Inv p (begin-Inv tasks) in step_from s s.items s.posted refl refl v.counted n

-- What is left to do; every step takes one from it.
abbrev work : TaskRun → ℕ
work r = 2 * length r.items + length r.posted + elim r.result [ none ↦ 1 | some _ ↦ 0 ]

launch-work :
    (t : BootTask) (rest : List BootTask) (r : TaskRun)
    → r.items ≡ t ∷ rest
    → work (launch t rest r) < work r
unfolding launch
launch-work t rest r e = elim (Bool-cases (is_async t.exc_type)) [
  | inl a ↦ rw a (omega (arith, ap length e, length-append r.posted (t ∷ [])))
  | inr a ↦ rw a (omega (arith, ap length e))
]

Step-work : (r s : TaskRun) → Step r s → work s < work r
unfolding run_async finish
Step-work r s (launches t rest e d) = subst (λ u. work u < work r) (sym d) (launch-work t rest r e)
Step-work r s (runs t others p d) =
    subst (λ u. work u < work r) (sym d) (omega (arith, Pick-length p))
Step-work r s (finishes e z n d) = subst (λ u. work u < work r) (sym d) (rw n (omega arith))

-- The number of steps of a schedule.
abbrev pub steps : {r s : TaskRun} → Reach r s → ℕ
steps here = 0
steps (next p st) = steps p + 1

steps-work : {r s : TaskRun} (p : Reach r s) → steps p + work s ≤ work r
steps-work here = omega arith
steps-work (next {s} {u} p st) = omega (arith, steps-work p, Step-work s u st)

-- A schedule that goes on until there is a result.
abbrev Completes : TaskRun → Type 0
Completes s = (t : TaskRun) × Reach s t × (b : Bool) × (t.result ≡ some b)

first_step : {s u t : TaskRun} → Step s u → Reach u t → Reach s t
first_step st here = next here st
first_step st (next p later) = next (first_step st p) later

unfinished : (s : TaskRun) → s.result ≡ none → 0 < work s
unfinished s e = rw e (omega arith)

completes :
    (n : ℕ) (tasks : List BootTask) (s : TaskRun) → Reach (begin tasks) s → work s ≤ n → Completes s
completes zero tasks s p l = elim (Option-cases s.result) [
  | inr (b, e) ↦ (s, here, b, e)
  | inl e ↦ absurd (omega (arith, unfinished s e))
]
completes (suc n) tasks s p l = elim (Option-cases s.result) [
  | inr (b, e) ↦ (s, here, b, e)
  | inl e ↦
      let (u, st) = run_tasks-progress tasks s p e in
      let (t, q, b, r) = completes n tasks u (next p st) (omega (arith, Step-work s u st)) in
      (t, first_step st q, b, r)
]

begin-work : (tasks : List BootTask) → work (begin tasks) ≡ 2 * length tasks + 1
unfolding begin
begin-work tasks = omega arith

-- However the tasks are scheduled, they never block each other: from wherever a schedule has
-- come some further steps lead to a result, and no schedule has more than two steps for each
-- task and one for the result.
pub run_tasks-ends :
    (tasks : List BootTask) (s : TaskRun) (p : Reach (begin tasks) s)
    → (steps p ≤ 2 * length tasks + 1)
      × ((t : TaskRun) × Reach s t × (b : Bool) × (t.result ≡ some b))
run_tasks-ends tasks s p =
    (omega (arith, steps-work p, begin-work tasks), completes (work s) tasks s p (omega arith))
