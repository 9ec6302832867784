-- ===== src/Shell/Lifecycle/Tests.antt =====
-- A run of an application with one boot task and one clean-up task, which fails, and the theorems
-- about such runs at it.
use mathlib.Core.List.{Perm}
use ltapp.Base.{◌≡◌, refl, Bool, true, false, List, [], ◌∷◌, ◌++◌, some, none, ◌⊎◌}
use ltapp.Shell.Tasks
use ltapp.Shell.Tasks.{
  BootTask, Application, TaskRun, sequence_type, launch, note_failure, finish, is_empty,
}
use ltapp.Shell.Schedule
use ltapp.Shell.Schedule.{launches, finishes, failing}
use ltapp.Shell.Startup.{before_wait, notify, decide}
use ltapp.Shell.Lifecycle
use ltapp.Shell.Lifecycle.{
  ContextCall, on_start, on_stop, Main, booting, serving, cleaning, finished, Process, notify_main,
  waits, call_on_stop, call_on_start, boot_waits, boot_wakes, cleanup_wakes, woken_spuriously,
  decides, starts, loop_ends, stops, cleanup_waits, returns, boot_works, boot_ends, assigns,
  cleanup_works, cleanup_ends, Reach, here, next,
}
use ltapp.Shell.Lifecycle.Calls.{called-booted, finished-cleaned_up}
use ltapp.Shell.Lifecycle.Missed.{missed_cleanup}

abbrev load : BootTask
load = record { name = "config"; task = true; exc_type = sequence_type }

abbrev clean : BootTask
clean = record { name = "clean"; task = false; exc_type = sequence_type }

abbrev app : Application
app = record { on_start = load ∷ []; on_finish = clean ∷ [] }

abbrev over : List BootTask → Bool → TaskRun
over failed b = record { items = []; posted = []; failed = failed; wait_count = 0; result = some b }

-- The application serves, and its loop has ended.
abbrev served : Process
served = record {
  main = serving;
  success = true;
  boot = over [] true;
  assigned = true;
  loop_ended = true;
  cleanup = none;
  calls = on_start ∷ [];
}

serves : Reach app (Lifecycle.begin app) served
unfolding Lifecycle.begin Tasks.begin notify_main notify decide call_on_start launch note_failure
    finish
serves =
    let one = next here (boot_waits refl waits refl) in
    let two = next one (boot_works _ (launches load [] refl refl) refl refl) in
    let three = next two (boot_ends _ true (finishes refl refl refl refl) refl refl refl) in
    let four = next three (assigns true refl refl refl) in
    let five = next four (decides refl refl) in next (next five (starts refl refl)) (loop_ends refl)

abbrev stopped : Main → Bool → Process
stopped main b = record {
  main = main;
  success = false;
  boot = over [] true;
  assigned = true;
  loop_ended = true;
  cleanup = some (over (clean ∷ []) b);
  calls = on_start ∷ on_stop ∷ [];
}

returned : Reach app (Lifecycle.begin app) (stopped finished false)
unfolding Tasks.begin notify_main notify call_on_stop launch note_failure finish
returned =
    let one = next serves (stops refl refl refl) in
    let two = next one (cleanup_waits refl waits refl) in
    let three = next two (cleanup_works _ _ refl (launches clean [] refl refl) refl refl) in
    let four =
      next three (cleanup_ends _ _ false refl (finishes refl refl refl refl) refl refl refl) in
    next four (returns refl refl)

-- The clean-up tasks are over before the main thread waits.
too_early : Reach app (Lifecycle.begin app) (stopped (cleaning before_wait) false)
unfolding Tasks.begin notify_main notify call_on_stop launch note_failure finish
too_early =
    let one = next serves (stops refl refl refl) in
    let two = next one (cleanup_works _ _ refl (launches clean [] refl refl) refl refl) in
    next two (cleanup_ends _ _ false refl (finishes refl refl refl refl) refl refl refl)

called-booted_example : (served.boot.result ≡ some true) × (is_empty (failing app.on_start) ≡ true)
called-booted_example = called-booted app served serves (λ e. cc)

finished-cleaned_up_example :
    (served.calls ++ on_stop ∷ [] ≡ on_start ∷ on_stop ∷ [])
    × ((r : TaskRun) × (some (over (clean ∷ []) false) ≡ some r)
        × Schedule.Reach (Tasks.begin app.on_finish) r
        × ((woken_spuriously returned ≡ true)
            ⊎ (r.items ≡ []) × (r.posted ≡ []) × Perm r.failed (failing app.on_finish)))
finished-cleaned_up_example = finished-cleaned_up app (stopped finished false) returned refl

-- The main thread waits for a notification that has come, and is woken without one.
late : Reach app (stopped (cleaning before_wait) false) (stopped finished false)
late =
    let one = next here (cleanup_waits refl waits refl) in
    next (next one (cleanup_wakes refl refl)) (returns refl refl)

missed_cleanup_example : woken_spuriously late ≡ true
missed_cleanup_example =
    missed_cleanup app (stopped (cleaning before_wait) false) (stopped finished false)
      (over (clean ∷ []) false) false too_early refl refl refl late refl
