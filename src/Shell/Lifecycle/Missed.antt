-- ===== src/Shell/Lifecycle/Missed.antt =====
-- A notification of the clean-up tasks that the main thread of Application::Run
-- (content/shell/application.cc) does not wait for yet.
use ltapp.Base.{
  ◌≡◌, ◌≢◌, refl, Bool, true, false, none, some, arith, if◌then◌else◌, inl, inr, Bool-cases,
}
use ltapp.Shell.Tasks.{Application, TaskRun}
use ltapp.Shell.Startup.{MainThread, is_blocked}
use ltapp.Shell.Lifecycle.{
  Main, booting, serving, cleaning, finished, Process, begin, Wait, waits, times_out, waits_again,
  call_on_stop, call_on_start, Step, boot_waits, boot_wakes, cleanup_wakes, is_spurious,
  woken_spuriously, decides, starts, loop_ends, stops, cleanup_waits, returns, boot_works,
  boot_ends, assigns, cleanup_works, cleanup_ends, Reach, here, next,
}
use ltapp.Shell.Lifecycle.Calls.{is_up, result-stays, IsOver, Reach-Inv}

-- The main thread blocks at its second wait, and the clean-up tasks are over.
abbrev pub is_stuck : Main → Bool
is_stuck (cleaning m) = is_blocked m
is_stuck _ = false

record Missed (p : Process) : Type 0 where
  stuck : is_stuck p.main ≡ true
  quiet : IsOver p.cleanup
  booted : p.boot.result ≢ none

Wait-blocked : {m n : MainThread} → Wait m n → is_blocked n ≡ true
Wait-blocked waits = refl
Wait-blocked times_out = refl
Wait-blocked waits_again = refl

Step-Missed :
    {app : Application} {p q : Process} (s : Step app p q)
    → is_spurious s ≡ false
    → Missed p
    → Missed q
unfolding call_on_start call_on_stop
Step-Missed (boot_waits m w e) h v = ground arith
Step-Missed (boot_wakes m e) h v = ground arith
Step-Missed (cleanup_wakes m e) h v = cc
Step-Missed (decides m e) h v = ground arith
Step-Missed (starts m e) h v = ground arith
Step-Missed (loop_ends e) h v = ground arith
Step-Missed (stops m l e) h v = ground arith
Step-Missed (cleanup_waits m w e) h v = ground (arith, Wait-blocked w)
Step-Missed (returns m e) h v = ground arith
Step-Missed (boot_works s t n e) h v = ground (arith, result-stays t)
Step-Missed (boot_ends s b t n r e) h v = ground arith
Step-Missed (assigns b r a e) h v = ground arith
Step-Missed (cleanup_works r s c t n e) h v = ground (arith, result-stays t)
Step-Missed (cleanup_ends r s b c t n m e) h v = ground arith

stuck_is_up : (m : Main) → is_stuck m ≡ true → is_up m ≡ true
stuck_is_up (booting m) h = cc
stuck_is_up serving h = cc
stuck_is_up (cleaning m) h = refl
stuck_is_up finished h = cc

no_more_spurious : (b c : Bool) → (if b then true else c) ≡ false → (b ≡ false) × (c ≡ false)
no_more_spurious true c h = cc
no_more_spurious false c h = (refl, h)

Reach-Missed :
    {app : Application} {p q : Process} (s : Reach app p q)
    → woken_spuriously s ≡ false
    → Missed p
    → Missed q
Reach-Missed here h v = v
Reach-Missed (next r s) h v =
    let (i, j) = no_more_spurious (is_spurious s) (woken_spuriously r) h in
    Step-Missed s i (Reach-Missed r j v)

-- The notification of the clean-up tasks can be missed: if they are over while the main thread
-- blocks before or in its second wait, then Run returns only by a spurious wake-up of that
-- wait, whatever steps follow.
pub missed_cleanup :
    (app : Application) (p q : Process) (r : TaskRun) (b : Bool)
    → Reach app (begin app) p
    → is_stuck p.main ≡ true
    → p.cleanup ≡ some r
    → r.result ≡ some b
    → (s : Reach app p q) → q.main ≡ finished
    → woken_spuriously s ≡ true
missed_cleanup app p q r b h e c d s f =
    let (v, w) = Reach-Inv h in
    elim (Bool-cases (woken_spuriously s)) [
      | inl i ↦ i
      | inr i ↦
          let missed : Missed q = Reach-Missed s i (record {
            stuck = e;
            quiet = (r, b, c, d);
            booted = ground (arith, stuck_is_up p.main);
          }) in
          ground (arith, missed.stuck)
    ]
