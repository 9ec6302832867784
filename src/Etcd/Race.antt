-- ===== src/Etcd/Race.antt =====
-- A coroutine that waits (LockContext, then a yield unless the call is done, as in
-- KeepAliveContext::Wait of content/etcdv3/context/keepalive_ctx.cc) against the thread that calls
-- ResumeContext: all interleavings of their atomic steps.
use ltapp.Base.{ℕ, ◌≡◌, Bool, true, false, [], ◌∷◌, none, some, arith, ◌≢◌}
use ltapp.Etcd.CallContext.{CallContext, finish_call, run_resumer, set_resumer}

pub data Waiter : Type 0 where
  before_lock locked yielded went_on : Waiter

pub data Resumer : Type 0 where
  before_call finished resumed_waiter : Resumer

pub record Pair : Type 0 where
  pub waiter : Waiter
  pub resumer : Resumer
  pub context : CallContext

-- One atomic step of either side. The waiter is coroutine `co`, and the reply is `ok`.
pub data Step (co : ℕ) (ok : Bool) (p q : Pair) : Type 0 where
  lock :
      p.waiter ≡ before_lock
      → q ≡ record p { waiter = locked; context = set_resumer co p.context }
      → Step co ok p q
  go_on :
      p.waiter ≡ locked → p.context.done ≡ true → q ≡ record p { waiter = went_on } → Step co ok p q
  yield_co :
      p.waiter ≡ locked
      → p.context.done ≡ false
      → q ≡ record p { waiter = yielded }
      → Step co ok p q
  finish :
      p.resumer ≡ before_call
      → q ≡ record p { resumer = finished; context = finish_call ok p.context }
      → Step co ok p q
  resume :
      p.resumer ≡ finished
      → q ≡ record p { resumer = resumed_waiter; context = run_resumer p.context }
      → Step co ok p q

pub data Reach (co : ℕ) (ok : Bool) (p : Pair) : Pair → Type 0 where
  here : Reach co ok p p
  next : {q r : Pair} → Reach co ok p q → Step co ok q r → Reach co ok p r

abbrev pub start : Pair
start = record {
  waiter = before_lock;
  resumer = before_call;
  context = record { success = false; cancel = false; done = false; resumer = none; resumed = [] };
}

record Inv (co : ℕ) (ok : Bool) (p : Pair) : Type 0 where
  unset : p.waiter ≡ before_lock → p.context.resumer ≡ none
  set : p.waiter ≢ before_lock → p.context.resumer ≡ some co
  running : p.resumer ≡ before_call → (p.context.done ≡ false) × (p.context.resumed ≡ [])
  over : p.resumer ≢ before_call → (p.context.done ≡ true) × (p.context.success ≡ ok)
  silent : p.resumer ≡ finished → p.context.resumed ≡ []
  woken : p.resumer ≡ resumed_waiter → p.waiter ≡ yielded → p.context.resumed ≡ co ∷ []

Step-Inv : {co : ℕ} {ok : Bool} {p q : Pair} → Step co ok p q → Inv co ok p → Inv co ok q
unfolding set_resumer finish_call run_resumer
Step-Inv (lock w e) v = ground arith
Step-Inv (go_on w d e) v = ground arith
Step-Inv (yield_co w d e) v = ground arith
Step-Inv (finish w e) v = ground arith
Step-Inv (resume w e) v = ground arith

start-Inv : (co : ℕ) (ok : Bool) → Inv co ok start
start-Inv co ok = ground arith

Reach-Inv : {co : ℕ} {ok : Bool} {p q : Pair} → Inv co ok p → Reach co ok p q → Inv co ok q
Reach-Inv v here = v
Reach-Inv v (next r s) = Step-Inv s (Reach-Inv v r)

-- In every interleaving of a coroutine that waits and the thread that calls ResumeContext:
-- when both are through and the coroutine has yielded, it was resumed exactly once, and the
-- context holds the reply's success.
pub no_lost_wakeup :
    (co : ℕ) (ok : Bool) (p : Pair)
    → Reach co ok start p
    → p.resumer ≡ resumed_waiter
    → p.waiter ≡ yielded
    → (p.context.resumed ≡ co ∷ []) × (p.context.success ≡ ok)
no_lost_wakeup co ok p r d y =
    let v = Reach-Inv (start-Inv co ok) r in (v.woken d y, (v.over (λ e. cc)).1)
