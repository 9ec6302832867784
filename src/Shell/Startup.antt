-- ===== src/Shell/Startup.antt =====
-- The start of Application::Run (content/shell/application.cc): the main thread, which waits on the
-- condition variable cv_ with a timeout, and the coroutine in the loop's thread, which runs
-- RunBootupTask and then assigns its result to `success`. All interleavings of their steps, and
-- the spurious wake-ups of wait_for, which no notification caused.
use ltapp.Base.{◌≡◌, refl, Bool, true, false, if◌then◌else◌, arith}

pub data MainThread : Type 0 where
  before_wait waiting timed_out woken started gave_up : MainThread

pub data Booter : Type 0 where
  running notified assigned : Booter

pub record Startup : Type 0 where
  pub main : MainThread
  pub booter : Booter
  pub success : Bool

unfoldable pub begin : Startup
begin = record { main = before_wait; booter = running; success = false }

-- cv_.notify_all() wakes a thread that waits, and is lost on another.
unfoldable pub notify : MainThread → MainThread
notify waiting = woken
notify m = m

unfoldable pub decide : Bool → MainThread
decide success = if success then started else gave_up

-- One step; `result` is what RunBootupTask returns.
pub data Step (result : Bool) (p q : Startup) : Type 0 where
  waits : p.main ≡ before_wait → q ≡ record p { main = waiting } → Step result p q
  times_out : p.main ≡ waiting → q ≡ record p { main = timed_out } → Step result p q
  waits_again : p.main ≡ timed_out → q ≡ record p { main = waiting } → Step result p q
  wakes : p.main ≡ waiting → q ≡ record p { main = woken } → Step result p q
  decides : p.main ≡ woken → q ≡ record p { main = decide p.success } → Step result p q
  notifies :
      p.booter ≡ running
      → q ≡ record p { booter = notified; main = notify p.main }
      → Step result p q
  assigns :
      p.booter ≡ notified → q ≡ record p { booter = assigned; success = result } → Step result p q

pub data Reach (result : Bool) (p : Startup) : Startup → Type 0 where
  here : Reach result p p
  next : {q r : Startup} → Reach result p q → Step result q r → Reach result p r

-- `success` is true only if the result is, and the application has started only if it was.
record Inv (result : Bool) (p : Startup) : Type 0 where
  truthful : p.success ≡ true → result ≡ true
  justified : p.main ≡ started → result ≡ true

notify-started : (m : MainThread) → notify m ≡ started → m ≡ started
unfolding notify
notify-started waiting e = cc
notify-started started e = refl
notify-started before_wait e = cc
notify-started timed_out e = cc
notify-started woken e = cc
notify-started gave_up e = cc

begin-Inv : (result : Bool) → Inv result begin
unfolding begin
begin-Inv result = ground arith

Step-Inv : {result : Bool} {p q : Startup} → Step result p q → Inv result p → Inv result q
unfolding notify decide
Step-Inv (waits m e) v = ground arith
Step-Inv (times_out m e) v = ground arith
Step-Inv (waits_again m e) v = ground arith
Step-Inv (wakes m e) v = ground arith
Step-Inv (decides m e) v = ground arith
Step-Inv {p = p} (notifies m e) v = ground (arith, notify-started p.main)
Step-Inv (assigns m e) v = ground arith

Reach-Inv : {result : Bool} {p q : Startup} → Inv result p → Reach result p q → Inv result q
Reach-Inv v here = v
Reach-Inv v (next r s) = Step-Inv s (Reach-Inv v r)

-- The main thread goes on to start the application only if the boot tasks succeeded.
started-succeeded :
    (result : Bool) (p : Startup) → Reach result begin p → p.main ≡ started → result ≡ true
started-succeeded result p r m = (Reach-Inv (begin-Inv result) r).justified m

-- The main thread is at a wait, before it or within it.
abbrev pub is_blocked : MainThread → Bool
is_blocked before_wait = true
is_blocked waiting = true
is_blocked timed_out = true
is_blocked _ = false

-- Whatever the result of the boot tasks, the main thread may give up: it may read success
-- after the notification and before the assignment.
may_give_up : (result : Bool) → (p : Startup) × Reach result begin p × (p.main ≡ gave_up)
unfolding begin notify decide
may_give_up result = (
  record { main = gave_up; booter = notified; success = false },
  next (next (next here (waits refl refl)) (notifies refl refl)) (decides refl refl),
  refl,
)
