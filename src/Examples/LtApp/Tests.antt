-- ===== src/Examples/LtApp/Tests.antt =====
-- A start of the application of examples/lt_app whose configuration is good, and one whose file is
-- not there, with the theorems at them. Documents are the numbers 0, which is empty, and 1.
use ltapp.Base.{
  ℕ, zero, suc, ◌≡◌, refl, Bool, true, false, [], ◌∷◌, Option, some, none, String, str_eq,
}
use ltapp.Outcome.{ok, abort, check_some}
use ltapp.Content.Config.{new_config, xml_root, load}
use ltapp.Shell.Tasks
use ltapp.Shell.Tasks.{
  BootTask, Application, TaskRun, sequence_type, async_run_type, async_coro_type, launch,
  note_failure, run_async, finish, new_task, prepare, cleanup,
}
use ltapp.Shell.Sequence.{call_tasks}
use ltapp.Shell.Schedule.{launches, runs, finishes, first}
use ltapp.Shell.Startup.{notify, decide}
use ltapp.Shell.Lifecycle
use ltapp.Shell.Lifecycle.{
  serving, on_start, Process, notify_main, call_on_start, boot_waits, decides, starts, boot_works,
  boot_ends, assigns, Reach, here, next,
}
use ltapp.Examples.LtApp
use ltapp.Examples.LtApp.{
  boot, application, prepare_all, no_tasks, init_config, init_client, init_prepare, actions,
  started-configured,
}

abbrev read : Bool → ℕ × Bool
read true = (1, true)
read false = (0, false)

abbrev load_file : String → ℕ × Bool
load_file file = read (str_eq file "manifest.xml")

abbrev root_element : ℕ → Option String
root_element zero = none
root_element (suc n) = some "root"

abbrev has_client : String → Bool
has_client root = true

abbrev app : Application
app = application (
    new_task "config" true sequence_type
    ∷ new_task "client" true sequence_type
    ∷ new_task "coro" true async_coro_type
    ∷ new_task "async" true async_run_type
    ∷ [])

boots : boot load_file root_element has_client "manifest.xml" ≡ ok app
unfolding boot call_tasks actions init_prepare init_config init_client LtApp.new new_config xml_root
    load check_some
boots = refl

-- Where the file is not there, and the reader leaves no root element, the second task runs
-- nevertheless, and its CHECK stops the process.
stopped : boot load_file root_element has_client "absent.xml" ≡ abort
unfolding boot call_tasks actions init_prepare init_config init_client LtApp.new new_config xml_root
    load check_some
stopped = refl

abbrev over : TaskRun
over = record { items = []; posted = []; failed = []; wait_count = 0; result = some true }

abbrev served : Process
served = record {
  main = serving;
  success = true;
  boot = over;
  assigned = true;
  loop_ended = false;
  cleanup = none;
  calls = on_start ∷ [];
}

serves : Reach app (Lifecycle.begin app) served
unfolding Lifecycle.begin Tasks.begin notify_main notify decide call_on_start launch note_failure
    finish run_async application prepare_all new_task prepare cleanup no_tasks
serves =
    let waiting = next here (boot_waits refl Lifecycle.waits refl) in
    let one = next waiting (boot_works _ (launches _ _ refl refl) refl refl) in
    let two = next one (boot_works _ (launches _ _ refl refl) refl refl) in
    let three = next two (boot_works _ (launches _ _ refl refl) refl refl) in
    let four = next three (boot_works _ (launches _ _ refl refl) refl refl) in
    let five = next four (boot_works _ (runs _ _ first refl) refl refl) in
    let six = next five (boot_works _ (runs _ _ first refl) refl refl) in
    let ended = next six (boot_ends _ true (finishes refl refl refl refl) refl refl refl) in
    let decided = next (next ended (assigns true refl refl refl)) (decides refl refl) in
    next decided (starts refl refl)

started-configured_example :
    (true ≡ true) × ((root : String) × (some "root" ≡ some root) × (has_client root ≡ true))
started-configured_example =
    started-configured load_file root_element has_client "manifest.xml" app served boots serves
      (λ e. cc)
