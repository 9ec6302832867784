-- ===== src/Etcd/CallContext.antt =====
-- CallContext of content/etcdv3/context/call_context.h and .cc: how a coroutine that waits for a
-- reply is told of it. Coroutines are named by numbers; CO_RESUMER is the name of the running one.
use ltapp.Base.{ℕ, Bool, true, false, List, [], ◌++◌, Option, none, some, opt_list}

pub record CallContext : Type 0 where
  pub success : Bool
  pub cancel : Bool
  pub done : Bool
  pub resumer : Option ℕ
  -- The coroutines that were resumed, in order.
  pub resumed : List ℕ

unfoldable pub new : CallContext
new = record { success = false; cancel = false; done = false; resumer = none; resumed = [] }

-- ResumeContext up to its lock, and the part that runs under the lock.
unfoldable pub finish_call : Bool → CallContext → CallContext
finish_call ok c = record c { success = ok; done = true }

unfoldable pub run_resumer : CallContext → CallContext
run_resumer c = record c { resumed = c.resumed ++ opt_list c.resumer }

unfoldable pub resume_context : Bool → CallContext → CallContext
unfolding finish_call run_resumer
resume_context ok c = run_resumer (finish_call ok c)

-- LockContext: the resumer is set under the lock, and done_ is read after it.
unfoldable pub set_resumer : ℕ → CallContext → CallContext
set_resumer co c = record c { resumer = some co }

unfoldable pub lock_context : ℕ → CallContext → CallContext × Bool
unfolding set_resumer
lock_context co c = let c' = set_resumer co c in (c', c'.done)

unfoldable pub cancel_call : CallContext → CallContext
cancel_call c = record c { cancel = true }

unfoldable pub reset : CallContext → CallContext
reset c = record c { success = false; done = false; cancel = false; resumer = none }
