-- ===== src/Shell/Tests.antt =====
-- The application's tasks on concrete lists: runs of the schedule, and the theorems at them.
use mathlib.Core.List.{Perm}
use ltapp.Base.{◌≤◌, Bool, ◌≡◌, refl, true, false, List, [], ◌∷◌, some, none}
use ltapp.Shell.Tasks.{
  BootTask, TaskRun, sequence_type, async_run_type, begin, launch, note_failure, run_async, finish,
  is_empty,
}
use ltapp.Shell.Schedule.{Reach, here, next, launches, runs, finishes, first, failing}
use ltapp.Shell.Schedule.Result.{run_tasks-result}
use ltapp.Shell.Schedule.Ends.{steps, run_tasks-ends}
use ltapp.Shell.Startup
use ltapp.Shell.Startup.{Startup, is_blocked}

abbrev task_list : List BootTask
task_list =
    record { name = "config"; task = true; exc_type = sequence_type }
    ∷ record { name = "cache"; task = false; exc_type = async_run_type }
    ∷ []

abbrev cache : BootTask
cache = record { name = "cache"; task = false; exc_type = async_run_type }

abbrev all_launched : TaskRun
all_launched = record {
  items = [];
  posted = cache ∷ [];
  failed = [];
  wait_count = 1;
  result = none;
}

abbrev all_run : TaskRun
all_run = record { items = []; posted = []; failed = cache ∷ []; wait_count = 0; result = none }

abbrev over : TaskRun
over = record { items = []; posted = []; failed = cache ∷ []; wait_count = 0; result = some false }

launched : Reach (begin task_list) all_launched
unfolding begin launch note_failure
launched = next (next here (launches _ _ refl refl)) (launches _ _ refl refl)

ran : Reach (begin task_list) all_run
unfolding run_async note_failure
ran = next launched (runs cache [] first refl)

ended : Reach (begin task_list) over
unfolding finish
ended = next ran (finishes refl refl refl refl)

run_tasks-result_example :
    Perm (cache ∷ []) (failing task_list) × (false ≡ is_empty (failing task_list))
run_tasks-result_example = run_tasks-result task_list over false ended refl

run_tasks-ends_example :
    (steps launched ≤ 5) × ((t : TaskRun) × Reach all_launched t × (b : Bool) × (t.result ≡ some b))
run_tasks-ends_example = run_tasks-ends task_list all_launched launched

abbrev woken_up : Startup
woken_up = record { main = Startup.started; booter = Startup.assigned; success = true }

starts_up : Startup.Reach true Startup.begin woken_up
unfolding Startup.begin Startup.notify Startup.decide
starts_up =
    Startup.next
      (Startup.next
        (Startup.next (Startup.next Startup.here (Startup.waits refl refl))
          (Startup.notifies refl refl))
        (Startup.assigns refl refl))
      (Startup.decides refl refl)
