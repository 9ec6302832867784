-- ===== src/Shell/Tasks.antt =====
-- Application::RunBootupTask and RunCleanupTask of content/shell/application.h and .cc, which are the
-- same code over on_start_ and on_finish_. A task is known by what its function returns.
use ltapp.Base.{
  ℕ, ◌+◌, ◌-◌, Bool, true, false, List, [], ◌∷◌, ◌++◌, String, if◌then◌else◌, Option, none, some,
}

pub data ExcRunType : Type 0 where
  sequence_type async_run_type async_coro_type : ExcRunType

pub record BootTask : Type 0 where
  pub name : String
  pub task : Bool
  pub exc_type : ExcRunType

unfoldable pub new_task : String → Bool → ExcRunType → BootTask
new_task name task run_type = record { name = name; task = task; exc_type = run_type }

-- The two lists of Application.
pub record Application : Type 0 where
  pub on_start : List BootTask
  pub on_finish : List BootTask

unfoldable pub prepare : BootTask → Application → Application
prepare item a = record a { on_start = a.on_start ++ item ∷ [] }

unfoldable pub cleanup : BootTask → Application → Application
cleanup item a = record a { on_finish = a.on_finish ++ item ∷ [] }

-- A run of the tasks: the items that the loop has not reached, those that were handed to the main
-- loop and have not run, the failed ones, the count of the wait group, and the result with the
-- notification once the run is over.
pub record TaskRun : Type 0 where
  pub items : List BootTask
  pub posted : List BootTask
  pub failed : List BootTask
  pub wait_count : ℕ
  pub result : Option Bool

unfoldable pub begin : List BootTask → TaskRun
begin items = record { items = items; posted = []; failed = []; wait_count = 0; result = none }

abbrev pub is_async : ExcRunType → Bool
is_async sequence_type = false
is_async async_run_type = true
is_async async_coro_type = true

unfoldable pub note_failure : BootTask → List BootTask → List BootTask
note_failure t failed = if t.task then failed else failed ++ t ∷ []

-- One round of the loop over the items.
unfoldable pub launch : BootTask → List BootTask → TaskRun → TaskRun
launch t rest r =
    if is_async t.exc_type
    then record r { items = rest; posted = r.posted ++ t ∷ []; wait_count = r.wait_count + 1 }
    else record r { items = rest; failed = note_failure t r.failed }

-- async_run_fn of a posted task; the others stay posted.
unfoldable pub run_async : BootTask → List BootTask → TaskRun → TaskRun
run_async t others r = record r {
  posted = others;
  failed = note_failure t r.failed;
  wait_count = r.wait_count - 1;
}

abbrev pub is_empty : List BootTask → Bool
is_empty [] = true
is_empty (_ ∷ _) = false

-- After wg->Wait(): cv_.notify_all(), and the result.
unfoldable pub finish : TaskRun → TaskRun
finish r = record r { result = some (is_empty r.failed) }
