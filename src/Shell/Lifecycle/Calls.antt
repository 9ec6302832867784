-- ===== src/Shell/Lifecycle/Calls.antt =====
-- What Application::Run (content/shell/application.cc) has called, and what is over by then.
use mathlib.Core.List.{Perm}
use ltapp.Base.{
  ◌≡◌, ◌≢◌, refl, sym, ap, ◌∙◌, Bool, true, false, List, [], ◌∷◌, Option, none, some, arith, ◌⊎◌,
  inl, inr, Bool-cases, if◌then◌else◌,
}
use ltapp.Shell.Tasks.{Application, TaskRun, launch, run_async, finish, is_empty}
use ltapp.Shell.Schedule
use ltapp.Shell.Tasks
use ltapp.Shell.Schedule.{failing, launches, runs, finishes}
use ltapp.Shell.Schedule.Result
use ltapp.Shell.Schedule.Result.{run_tasks-result}
use ltapp.Shell.Startup.{
  MainThread, before_wait, waiting, timed_out, woken, started, gave_up, notify, decide,
}
use ltapp.Shell.Lifecycle.{
  ContextCall, on_start, on_stop, Main, booting, serving, cleaning, finished, Process, begin,
  notify_main, Wait, waits, times_out, waits_again, call_on_stop, call_on_start, Step, boot_waits,
  boot_wakes, cleanup_wakes, is_spurious, woken_spuriously, decides, starts, loop_ends, stops,
  cleanup_waits, returns, boot_works, boot_ends, assigns, cleanup_works, cleanup_ends, Reach, here,
  next,
}
use ltapp.Shell.Lifecycle.Scheduled.{begin-Scheduled, Step-Scheduled, Scheduled}

-- The calls that were made when the main thread is at a place.
abbrev pub calls_at : Main → List ContextCall
calls_at (booting _) = []
calls_at serving = on_start ∷ []
calls_at _ = on_start ∷ on_stop ∷ []

-- The main thread has seen `success`, and it was true.
abbrev pub is_up : Main → Bool
is_up (booting started) = true
is_up (booting _) = false
is_up _ = true

-- The main thread was woken by the clean-up tasks.
abbrev is_cleaned : Main → Bool
is_cleaned (cleaning woken) = true
is_cleaned finished = true
is_cleaned _ = false

-- The main thread is past OnStop.
abbrev is_cleaning : Main → Bool
is_cleaning (cleaning _) = true
is_cleaning finished = true
is_cleaning _ = false

notify_main-is_up : (m : Main) → is_up (notify_main m) ≡ is_up m
unfolding notify_main notify
notify_main-is_up serving = refl
notify_main-is_up finished = refl
notify_main-is_up (cleaning m) = refl
notify_main-is_up (booting before_wait) = refl
notify_main-is_up (booting waiting) = refl
notify_main-is_up (booting timed_out) = refl
notify_main-is_up (booting woken) = refl
notify_main-is_up (booting started) = refl
notify_main-is_up (booting gave_up) = refl

notify_main-is_cleaning : (m : Main) → is_cleaning (notify_main m) ≡ is_cleaning m
unfolding notify_main
notify_main-is_cleaning serving = refl
notify_main-is_cleaning finished = refl
notify_main-is_cleaning (cleaning m) = refl
notify_main-is_cleaning (booting m) = refl

notify_main-calls_at : (m : Main) → calls_at (notify_main m) ≡ calls_at m
unfolding notify_main
notify_main-calls_at serving = refl
notify_main-calls_at finished = refl
notify_main-calls_at (cleaning m) = refl
notify_main-calls_at (booting m) = refl

Wait-not_up : {m n : MainThread} → Wait m n → is_up (booting n) ≡ false
Wait-not_up waits = refl
Wait-not_up times_out = refl
Wait-not_up waits_again = refl

Wait-not_cleaned : {m n : MainThread} → Wait m n → is_cleaned (cleaning n) ≡ false
Wait-not_cleaned waits = refl
Wait-not_cleaned times_out = refl
Wait-not_cleaned waits_again = refl

cleaned_is_up : (m : Main) → is_cleaned m ≡ true → is_up m ≡ true
cleaned_is_up (booting m) h = cc
cleaned_is_up serving h = refl
cleaned_is_up (cleaning m) h = refl
cleaned_is_up finished h = refl

-- A result stays.
pub result-stays : {r s : TaskRun} → Schedule.Step r s → s.result ≡ none → r.result ≡ none
unfolding launch run_async finish
result-stays (launches t rest e d) h = ground arith
result-stays (runs t others p d) h = ground arith
result-stays (finishes e z n d) h = n

abbrev pub IsOver : Option TaskRun → Type 0
IsOver o = (r : TaskRun) × (b : Bool) × (o ≡ some r) × (r.result ≡ some b)

pub record Inv (spurious : Bool) (p : Process) : Type 0 where
  pub truthful : p.success ≡ true → p.boot.result ≡ some true
  pub up : is_up p.main ≡ true → p.boot.result ≡ some true
  pub cleaned : is_cleaned p.main ≡ true → spurious ≡ false → IsOver p.cleanup
  pub cleaning : is_cleaning p.main ≡ true → p.cleanup ≢ none  -- they were started
  pub made : p.calls ≡ calls_at p.main

begin-Inv : (app : Application) → Inv false (begin app)
unfolding begin
begin-Inv app = record {
  truthful = λ h. cc;
  up = λ h. cc;
  cleaned = λ h b. cc;
  cleaning = λ h. cc;
  made = refl;
}

decide-is_up : (b : Bool) → is_up (booting (decide b)) ≡ true → b ≡ true
unfolding decide
decide-is_up b h = ground arith

Step-Inv :
    {app : Application} {b : Bool} {p q : Process} (s : Step app p q)
    → Inv b p
    → Inv (if is_spurious s then true else b) q
unfolding call_on_start call_on_stop
Step-Inv (boot_waits m w e) v = ground (arith, Wait-not_up w)
Step-Inv (boot_wakes m e) v = ground arith
Step-Inv (cleanup_wakes m e) v = ground arith
Step-Inv {p = p} (decides m e) v = ground (arith, decide-is_up p.success)
Step-Inv (starts m e) v = ground arith
Step-Inv (loop_ends e) v = ground arith
Step-Inv (stops m l e) v = ground arith
Step-Inv (cleanup_waits m w e) v = ground (arith, Wait-not_cleaned w)
Step-Inv (returns m e) v = ground arith
Step-Inv (boot_works s t n e) v = ground (arith, result-stays t)
Step-Inv {p = p} (boot_ends s b t n r e) v = ground (
  arith,
  notify_main-is_up p.main,
  notify_main-is_cleaning p.main,
  notify_main-calls_at p.main,
  cleaned_is_up (notify_main p.main),
)
Step-Inv (assigns b r a e) v = ground arith
Step-Inv (cleanup_works r s c t n e) v = ground (arith, result-stays t)
Step-Inv {p = p} (cleanup_ends r s b c t n m e) v = record {
  truthful = ground arith;
  up = ground (arith, notify_main-is_up p.main);
  cleaned = λ _ _. (s, b, ap (λ x. x.cleanup) e, m);
  cleaning = ground arith;
  made = ground (arith, notify_main-calls_at p.main);
}

pub Reach-Inv :
    {app : Application} {p : Process} (r : Reach app (begin app) p)
    → Inv (woken_spuriously r) p × Scheduled app p
Reach-Inv {app} here = (begin-Inv app, begin-Scheduled app)
Reach-Inv (next r s) = let (v, w) = Reach-Inv r in (Step-Inv s v, Step-Scheduled s w)

called-is_up : (m : Main) → calls_at m ≢ [] → is_up m ≡ true
called-is_up (booting m) h = absurd (h refl)
called-is_up serving h = refl
called-is_up (cleaning m) h = refl
called-is_up finished h = refl

-- Whatever the interleaving: the context is called only once the boot tasks are over and none
-- of the list fails.
pub called-booted :
    (app : Application) (p : Process)
    → Reach app (begin app) p
    → p.calls ≢ []
    → (p.boot.result ≡ some true) × (is_empty (failing app.on_start) ≡ true)
called-booted app p r h =
    let (v, w) = Reach-Inv r in
    let over = v.up (called-is_up p.main (λ e. h (v.made ∙ e))) in
    (over, sym (run_tasks-result app.on_start p.boot true w.booted over).1)

some_of : {A : Type 0} (o : Option A) → o ≢ none → (a : A) × (o ≡ some a)
some_of none h = absurd (h refl)
some_of (some a) h = (a, refl)

over_of :
    (app : Application) (p : Process) (u : TaskRun)
    → p.cleanup ≡ some u
    → Schedule.Reach (Tasks.begin app.on_finish) u
    → IsOver p.cleanup
    → (u.items ≡ []) × (u.posted ≡ []) × Perm u.failed (failing app.on_finish)
over_of app p u c path (x, b, e, d) =
    let d' : u.result ≡ some b = ground arith in
    let (i, q, _) = (Result.Reach-Inv path (Result.begin-Inv app.on_finish)).settled b d' in
    (i, q, (run_tasks-result app.on_finish u b path d').0)

-- When Run returns after the loop, OnStart and then OnStop were called, once each, and the
-- clean-up tasks were started: what they have done is a schedule of their list. Either a
-- spurious wake-up ended the second wait, or the clean-up tasks are over: none is left to
-- reach or to run, and those that failed are those of the list that fail, up to their order.
pub finished-cleaned_up :
    (app : Application) (p : Process) (s : Reach app (begin app) p)
    → p.main ≡ finished
    → (p.calls ≡ on_start ∷ on_stop ∷ [])
      × ((r : TaskRun) × (p.cleanup ≡ some r)
          × Schedule.Reach (Tasks.begin app.on_finish) r
          × ((woken_spuriously s ≡ true)
              ⊎ (r.items ≡ []) × (r.posted ≡ []) × Perm r.failed (failing app.on_finish)))
finished-cleaned_up app p s h =
    let (v, w) = Reach-Inv s in
    let (u, c) = some_of p.cleanup (v.cleaning (ap is_cleaning h)) in
    let path = w.cleaning_up u c in
    (
      v.made ∙ ap calls_at h,
      (
        u,
        c,
        path,
        elim (Bool-cases (woken_spuriously s)) [
          | inl b ↦ inl b
          | inr b ↦ inr (over_of app p u c path (v.cleaned (ap is_cleaned h) b))
        ],
      ),
    )
