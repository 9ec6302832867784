-- ===== src/Shell/Lifecycle.antt =====
-- The whole of Application::Run (content/shell/application.cc): the start with the boot tasks, the
-- wait for the end of the main loop, and the stop with the clean-up tasks. The main thread waits on
-- the same condition variable at the start and at the stop. All interleavings of the main thread,
-- of the coroutines that run the tasks, and of the loop's end; wait_for may also wake up spuriously,
-- which no notification caused. Whether an ended loop still runs the
-- clean-up coroutine is the loop's matter; here it may.
pub mod Scheduled
pub mod Calls
pub mod Missed
mod Tests
use mathlib.Core.List.{Perm}
use mathlib.Core.Option.{some-injective}
use ltapp.Base.{
  ◌≡◌, ◌≢◌, refl, sym, ap, subst, ◌∙◌, Bool, true, false, List, [], ◌∷◌, ◌++◌, Option, none, some,
  arith, ◌⊎◌, inl, inr, if◌then◌else◌,
}
use ltapp.Shell.Tasks.{
  BootTask, Application, TaskRun, is_async, launch, run_async, finish, is_empty,
}
use ltapp.Shell.Tasks
use ltapp.Shell.Schedule
use ltapp.Shell.Schedule.{failing, launches, runs, finishes}
use ltapp.Shell.Schedule.Result
use ltapp.Shell.Schedule.Result.{run_tasks-result}
use ltapp.Shell.Startup.{
  MainThread, before_wait, waiting, timed_out, woken, started, gave_up, notify, decide, is_blocked,
}

-- The calls of the application's context.
pub data ContextCall : Type 0 where
  on_start on_stop : ContextCall

-- Where the main thread is: at the first wait, in WaitLoopEnd, at the second wait, or at the end.
pub data Main : Type 0 where
  booting : MainThread → Main
  serving : Main
  cleaning : MainThread → Main
  finished : Main

pub record Process : Type 0 where
  pub main : Main
  pub success : Bool
  pub boot : TaskRun
  pub assigned : Bool  -- the boot coroutine has assigned its result to `success`
  pub loop_ended : Bool
  pub cleanup : Option TaskRun
  pub calls : List ContextCall

unfoldable pub begin : Application → Process
begin app = record {
  main = booting before_wait;
  success = false;
  boot = Tasks.begin app.on_start;
  assigned = false;
  loop_ended = false;
  cleanup = none;
  calls = [];
}

-- cv_.notify_all().
unfoldable pub notify_main : Main → Main
notify_main (booting m) = booting (notify m)
notify_main (cleaning m) = cleaning (notify m)
notify_main m = m

-- One round of `while (cv_.wait_for(...) == timeout)`.
pub data Wait : MainThread → MainThread → Type 0 where
  waits : Wait before_wait waiting
  times_out : Wait waiting timed_out
  waits_again : Wait timed_out waiting

unfoldable pub call_on_stop : Application → Process → Process
call_on_stop app p = record p {
  main = cleaning before_wait;
  success = false;
  cleanup = some (Tasks.begin app.on_finish);
  calls = p.calls ++ on_stop ∷ [];
}

unfoldable pub call_on_start : Process → Process
call_on_start p = record p { main = serving; calls = p.calls ++ on_start ∷ [] }

pub data Step (app : Application) (p q : Process) : Type 0 where
  boot_waits :
      {m n : MainThread}
      → p.main ≡ booting m
      → Wait m n
      → q ≡ record p { main = booting n }
      → Step app p q
  -- A spurious wake-up.
  boot_wakes : p.main ≡ booting waiting → q ≡ record p { main = booting woken } → Step app p q
  decides :
      p.main ≡ booting woken → q ≡ record p { main = booting (decide p.success) } → Step app p q
  starts : p.main ≡ booting started → q ≡ call_on_start p → Step app p q
  loop_ends : q ≡ record p { loop_ended = true } → Step app p q
  stops : p.main ≡ serving → p.loop_ended ≡ true → q ≡ call_on_stop app p → Step app p q
  cleanup_waits :
      {m n : MainThread}
      → p.main ≡ cleaning m
      → Wait m n
      → q ≡ record p { main = cleaning n }
      → Step app p q
  -- A spurious wake-up.
  cleanup_wakes : p.main ≡ cleaning waiting → q ≡ record p { main = cleaning woken } → Step app p q
  returns : p.main ≡ cleaning woken → q ≡ record p { main = finished } → Step app p q
  boot_works :
      (s : TaskRun)
      → Schedule.Step p.boot s
      → s.result ≡ none
      → q ≡ record p { boot = s }
      → Step app p q
  boot_ends :
      (s : TaskRun) (b : Bool)
      → Schedule.Step p.boot s
      → p.boot.result ≡ none
      → s.result ≡ some b
      → q ≡ record p { boot = s; main = notify_main p.main }
      → Step app p q
  assigns :
      (b : Bool)
      → p.boot.result ≡ some b
      → p.assigned ≡ false
      → q ≡ record p { success = b; assigned = true }
      → Step app p q
  cleanup_works :
      (r s : TaskRun)
      → p.cleanup ≡ some r
      → Schedule.Step r s
      → s.result ≡ none
      → q ≡ record p { cleanup = some s }
      → Step app p q
  cleanup_ends :
      (r s : TaskRun) (b : Bool)
      → p.cleanup ≡ some r
      → Schedule.Step r s
      → r.result ≡ none
      → s.result ≡ some b
      → q ≡ record p { cleanup = some s; main = notify_main p.main }
      → Step app p q

pub data Reach (app : Application) (p : Process) : Process → Type 0 where
  here : Reach app p p
  next : {q r : Process} → Reach app p q → Step app q r → Reach app p r

-- The second wait ends by this step without a notification.
abbrev pub is_spurious : {app : Application} {p q : Process} → Step app p q → Bool
is_spurious (cleanup_wakes m e) = true
is_spurious _ = false

-- Some step of the run ends the second wait without a notification.
abbrev pub woken_spuriously : {app : Application} {p q : Process} → Reach app p q → Bool
woken_spuriously here = false
woken_spuriously (next r s) = if is_spurious s then true else woken_spuriously r
