-- ===== src/Shell/Lifecycle/Scheduled.antt =====
-- The boot and the clean-up tasks of a run of the shell (content/shell/application.cc), which run as
-- schedules of their lists.
use mathlib.Core.Option.{some-injective}
use ltapp.Base.{◌≡◌, sym, ap, subst, ◌∙◌, some}
use ltapp.Shell.Tasks.{
  BootTask, Application, TaskRun, is_async, launch, run_async, finish, is_empty,
}
use ltapp.Shell.Tasks
use ltapp.Shell.Schedule
use ltapp.Shell.Schedule.{failing, launches, runs, finishes}
use ltapp.Shell.Lifecycle.{
  Process, begin, call_on_stop, call_on_start, Step, boot_waits, boot_wakes, cleanup_wakes, decides,
  starts, loop_ends, stops, cleanup_waits, returns, boot_works, boot_ends, assigns, cleanup_works,
  cleanup_ends,
}

-- The boot and the clean-up tasks run as schedules of their lists.
pub record Scheduled (app : Application) (p : Process) : Type 0 where
  pub booted : Schedule.Reach (Tasks.begin app.on_start) p.boot
  pub cleaning_up :
      (r : TaskRun) → p.cleanup ≡ some r → Schedule.Reach (Tasks.begin app.on_finish) r

pub begin-Scheduled : (app : Application) → Scheduled app (begin app)
unfolding begin
begin-Scheduled app = record { booted = Schedule.here; cleaning_up = λ r h. cc }

module _ {app : Application} {p : Process} (v : Scheduled app p) where
  stay-Scheduled : {q : Process} → q.boot ≡ p.boot → q.cleanup ≡ p.cleanup → Scheduled app q
  stay-Scheduled b c = record {
    booted = subst (Schedule.Reach (Tasks.begin app.on_start)) (sym b) v.booted;
    cleaning_up = λ r h. v.cleaning_up r (sym c ∙ h);
  }

  boot_step : {q : Process} → Schedule.Step p.boot q.boot → q.cleanup ≡ p.cleanup → Scheduled app q
  boot_step t c = record {
    booted = Schedule.next v.booted t;
    cleaning_up = λ r h. v.cleaning_up r (sym c ∙ h);
  }

  cleanup_step :
      {q : Process} {r s : TaskRun}
      → p.cleanup ≡ some r
      → Schedule.Step r s
      → q.boot ≡ p.boot
      → q.cleanup ≡ some s
      → Scheduled app q
  cleanup_step {q} {r} {s} c t b d = record {
    booted = subst (Schedule.Reach (Tasks.begin app.on_start)) (sym b) v.booted;
    cleaning_up = λ r' h.
        subst (Schedule.Reach (Tasks.begin app.on_finish)) (some-injective s r' (sym d ∙ h))
          (Schedule.next (v.cleaning_up r c) t);
  }

pub Step-Scheduled :
    {app : Application} {p q : Process} → Step app p q → Scheduled app p → Scheduled app q
unfolding call_on_start call_on_stop
Step-Scheduled (boot_waits m w e) v = stay-Scheduled v (ap (λ x. x.boot) e) (ap (λ x. x.cleanup) e)
Step-Scheduled (boot_wakes m e) v = stay-Scheduled v (ap (λ x. x.boot) e) (ap (λ x. x.cleanup) e)
Step-Scheduled (cleanup_wakes m e) v = stay-Scheduled v (ap (λ x. x.boot) e) (ap (λ x. x.cleanup) e)
Step-Scheduled (decides m e) v = stay-Scheduled v (ap (λ x. x.boot) e) (ap (λ x. x.cleanup) e)
Step-Scheduled (starts m e) v = stay-Scheduled v (ap (λ x. x.boot) e) (ap (λ x. x.cleanup) e)
Step-Scheduled (loop_ends e) v = stay-Scheduled v (ap (λ x. x.boot) e) (ap (λ x. x.cleanup) e)
Step-Scheduled {app} {p} (stops m l e) v = record {
  booted = subst (Schedule.Reach (Tasks.begin app.on_start)) (sym (ap (λ x. x.boot) e)) v.booted;
  cleaning_up = λ r h.
      subst (Schedule.Reach (Tasks.begin app.on_finish))
        (some-injective (Tasks.begin app.on_finish) r (sym (ap (λ x. x.cleanup) e) ∙ h))
        Schedule.here;
}
Step-Scheduled (cleanup_waits m w e) v =
    stay-Scheduled v (ap (λ x. x.boot) e) (ap (λ x. x.cleanup) e)
Step-Scheduled (returns m e) v = stay-Scheduled v (ap (λ x. x.boot) e) (ap (λ x. x.cleanup) e)
Step-Scheduled {p = p} (boot_works s t n e) v =
    boot_step v (subst (Schedule.Step p.boot) (sym (ap (λ x. x.boot) e)) t) (ap (λ x. x.cleanup) e)
Step-Scheduled {p = p} (boot_ends s b t n r e) v =
    boot_step v (subst (Schedule.Step p.boot) (sym (ap (λ x. x.boot) e)) t) (ap (λ x. x.cleanup) e)
Step-Scheduled (assigns b r a e) v = stay-Scheduled v (ap (λ x. x.boot) e) (ap (λ x. x.cleanup) e)
Step-Scheduled (cleanup_works r s c t n e) v =
    cleanup_step v c t (ap (λ x. x.boot) e) (ap (λ x. x.cleanup) e)
Step-Scheduled (cleanup_ends r s b c t n m e) v =
    cleanup_step v c t (ap (λ x. x.boot) e) (ap (λ x. x.cleanup) e)
