-- ===== src/Shell/Schedule/Result.antt =====
-- The result of a run of tasks (RunBootupTask and RunCleanupTask of content/shell/application.cc)
-- under every schedule.
use mathlib.Core.List.{Perm}
use mathlib.Core.List.Perm
use mathlib.Core.Option.{some-injective}
use ltapp.Base.{
  ◌≡◌, refl, sym, subst, ◌∙◌, Bool, List, [], ◌∷◌, ◌++◌, some, length, length-append, arith, inl,
  inr, append-nil, append_assoc, Bool-cases,
}
use ltapp.Shell.Tasks.{
  BootTask, TaskRun, begin, is_async, note_failure, launch, run_async, is_empty, finish,
}
use ltapp.Shell.Schedule.{
  Pick, first, later, Step, launches, runs, finishes, Reach, here, next, failing, failing-append,
  note_failure-failing, exchange, failing-cons, Pick-failing, Pick-length, Inv,
}

-- A task that runs moves to the failed ones if it fails.
ran-Perm :
    (t : BootTask) (failed a b : List BootTask)
    → Perm (note_failure t failed ++ (a ++ b)) (failed ++ ((failing (t ∷ []) ++ a) ++ b))
ran-Perm t failed a b =
    rw
      (
        note_failure-failing t failed,
        append_assoc failed (failing (t ∷ [])) (a ++ b),
        append_assoc (failing (t ∷ [])) a b,
      )
      Perm.rfl

launch-Perm :
    (t : BootTask) (rest : List BootTask) (r : TaskRun)
    → Perm
        ((launch t rest r).failed
          ++ (failing (launch t rest r).posted ++ failing (launch t rest r).items))
        (r.failed ++ (failing r.posted ++ failing (t ∷ rest)))
unfolding launch
launch-Perm t rest r = elim (Bool-cases (is_async t.exc_type)) [
  | inl e ↦
      rw
        (
          e,
          failing-append r.posted (t ∷ []),
          append_assoc (failing r.posted) (failing (t ∷ [])) (failing rest),
          sym (failing-cons t rest),
        )
        Perm.rfl
  | inr e ↦
      rw (e, failing-cons t rest)
        (Perm.trans (ran-Perm t r.failed (failing r.posted) (failing rest)) (
          Perm.append_left r.failed (
            rw (append_assoc (failing (t ∷ [])) (failing r.posted) (failing rest))
              (exchange (failing (t ∷ [])) (failing r.posted) (failing rest)))))
]

launch-result :
    (t : BootTask) (rest : List BootTask) (r : TaskRun) → (launch t rest r).result ≡ r.result
unfolding launch
launch-result t rest r = elim (Bool-cases (is_async t.exc_type)) [
  | inl e ↦ rw e refl
  | inr e ↦ rw e refl
]

cons_not_nil : {t : BootTask} {l : List BootTask} → t ∷ l ≡ [] → ⊥
cons_not_nil e = cc

Pick-not_nil : {t : BootTask} {l l' : List BootTask} → Pick t l l' → l ≡ [] → ⊥
Pick-not_nil first e = cc
Pick-not_nil (later p) e = cc

length_zero : (l : List BootTask) → 0 ≡ length l → l ≡ []
length_zero [] e = refl
length_zero (x ∷ l) e = absurd (omega arith)

launch-Inv :
    (tasks : List BootTask) (t : BootTask) (rest : List BootTask) (r : TaskRun)
    → r.items ≡ t ∷ rest
    → Inv tasks r
    → Inv tasks (launch t rest r)
launch-Inv tasks t rest r e v = record {
  all_there = Perm.trans (launch-Perm t rest r) (
      subst (λ l. Perm (r.failed ++ (failing r.posted ++ failing l)) (failing tasks)) e
        v.all_there);
  counted = unfold launch in ground (arith, v.counted, length-append r.posted (t ∷ []));
  settled = λ b h.
      absurd (
        let (i, q, d) = v.settled b (sym (launch-result t rest r) ∙ h) in cons_not_nil (sym e ∙ i));
}

run_async-Inv :
    (tasks : List BootTask) (t : BootTask) (others : List BootTask) (r : TaskRun)
    → Pick t r.posted others
    → Inv tasks r
    → Inv tasks (run_async t others r)
unfolding run_async
run_async-Inv tasks t others r p v = record {
  all_there =
      Perm.trans
        (Perm.trans (ran-Perm t r.failed (failing others) (failing r.items)) (
          Perm.append_left r.failed
            (Perm.append_right (failing r.items) (Perm.symm (Pick-failing p)))))
        v.all_there;
  counted = omega (arith, v.counted, Pick-length p);
  settled = λ b h. absurd (Pick-not_nil p (let (i, q, e) = v.settled b h in q));
}

finish-Inv :
    (tasks : List BootTask) (r : TaskRun)
    → r.items ≡ []
    → r.wait_count ≡ 0
    → Inv tasks r
    → Inv tasks (finish r)
unfolding finish
finish-Inv tasks r e z v = record {
  all_there = v.all_there;
  counted = v.counted;
  settled = λ b h.
      (e, length_zero r.posted (sym z ∙ v.counted), sym (some-injective (is_empty r.failed) b h));
}

Step-Inv : {tasks : List BootTask} {r s : TaskRun} → Step r s → Inv tasks r → Inv tasks s
Step-Inv {tasks} {r} (launches t rest e d) v =
    subst (Inv tasks) (sym d) (launch-Inv tasks t rest r e v)
Step-Inv {tasks} {r} (runs t others p d) v =
    subst (Inv tasks) (sym d) (run_async-Inv tasks t others r p v)
Step-Inv {tasks} {r} (finishes e z n d) v = subst (Inv tasks) (sym d) (finish-Inv tasks r e z v)

pub begin-Inv : (tasks : List BootTask) → Inv tasks (begin tasks)
unfolding begin failing
begin-Inv tasks = record { all_there = Perm.rfl; counted = refl; settled = λ b h. cc }

pub Reach-Inv : {tasks : List BootTask} {r s : TaskRun} → Reach r s → Inv tasks r → Inv tasks s
Reach-Inv here v = v
Reach-Inv (next p q) v = Step-Inv q (Reach-Inv p v)

is_empty-Perm : (l l' : List BootTask) → Perm l l' → is_empty l ≡ is_empty l'
is_empty-Perm [] [] p = refl
is_empty-Perm [] (x ∷ l') p = absurd (cons_not_nil (Perm.eq-nil (Perm.symm p)))
is_empty-Perm (x ∷ l) [] p = absurd (cons_not_nil (Perm.eq-nil p))
is_empty-Perm (x ∷ l) (y ∷ l') p = refl

none_left :
    {l : List BootTask} (failed posted items : List BootTask)
    → posted ≡ []
    → items ≡ []
    → Perm (failed ++ (failing posted ++ failing items)) l
    → Perm failed l
unfolding failing
none_left {l} failed posted items q i p = subst (λ x. Perm x l) (rw (q, i) (append-nil failed)) p

-- However the tasks are scheduled: once there is a result, it tells whether no task of the
-- list fails, and the failed tasks that were noted are those of the list that fail, up to
-- their order.
pub run_tasks-result :
    (tasks : List BootTask) (s : TaskRun) (b : Bool)
    → Reach (begin tasks) s
    → s.result ≡ some b
    → Perm s.failed (failing tasks) × (b ≡ is_empty (failing tasks))
run_tasks-result tasks s b p h =
    let v = Reach-Inv p (begin-Inv tasks) in
    let (i, q, e) = v.settled b h in
    let same : Perm s.failed (failing tasks) =
      none_left s.failed s.posted s.items q i v.all_there in
    (same, e ∙ is_empty-Perm s.failed (failing tasks) same)
