-- ===== src/Etcd/Keepalive.antt =====
-- KeepAliveContext of content/etcdv3/context/keepalive_ctx.h and .cc: a stream that writes a request,
-- reads the response, and writes again after an interval. What it asks of the stream and of its loop
-- is a list of actions.
pub mod Callbacks
mod Tests
use ltapp.Base.{
  ℕ, zero, suc, ◌≡◌, refl, ap, ◌∙◌, Bool, true, false, List, [], ◌∷◌, ◌++◌, if◌then◌else◌, arith,
  append_assoc, append-nil,
}
use ltapp.Base.Int.{ℤ}
use ltapp.Outcome.{Outcome, ok, abort}
use ltapp.Etcd.CallContext
use ltapp.Etcd.CallContext.{CallContext}

pub data Action : Type 0 where
  start_call start_read start_writes_done : Action
  -- The request's lease id.
  start_write : ℤ → Action
  -- The write is posted to the loop, in so many milliseconds.
  delay_write : ℤ → Action

pub record KeepAlive : Type 0 where
  pub call : CallContext
  pub lease_id : ℤ
  pub interval : ℤ
  pub actions : List Action

abbrev pub act : List Action → KeepAlive → KeepAlive
act as' k = record k { actions = k.actions ++ as' }

unfoldable pub start : ℤ → ℤ → KeepAlive → KeepAlive × Bool
start lease_id interval k = (
  act (start_call ∷ start_write lease_id ∷ [])
      (record k { lease_id = lease_id; interval = interval }),
  true,
)

-- The constructor leaves lease_id_ and interval_ unset: what they hold is an argument.
unfoldable pub new : ℤ → ℤ → KeepAlive
unfolding CallContext.new
new id interval = record {
  call = CallContext.new;
  lease_id = id;
  interval = interval;
  actions = [];
}

-- EtcdClientV3::LeaseKeepalive: CHECK(ctx->Start(lease, interval)).
unfoldable pub lease_keepalive : ℤ → ℤ → ℤ → ℤ → Outcome KeepAlive
unfolding new start
lease_keepalive unset_id unset_interval lease interval =
    let (k, started) = start lease interval (new unset_id unset_interval) in
    if started then ok k else abort

-- Wait of coroutine `co`: `true` when it goes on without a yield.
unfoldable pub wait : ℕ → KeepAlive → KeepAlive × Bool
unfolding CallContext.lock_context
wait co k = let (c, done) = CallContext.lock_context co k.call in (record k { call = c }, done)

unfoldable pub resume : Bool → KeepAlive → KeepAlive
unfolding CallContext.resume_context
resume done_ok k = record k { call = CallContext.resume_context done_ok k.call }

-- OnDone is given whether the status is OK.
unfoldable pub on_done : Bool → KeepAlive → KeepAlive
unfolding resume
on_done status_ok k = resume status_ok k

unfoldable pub next_write : KeepAlive → KeepAlive
next_write k =
    if k.call.cancel then act (start_writes_done ∷ []) k else act (delay_write k.interval ∷ []) k

-- A failed read resumes the waiter, and goes on like another.
unfoldable pub on_read_done : Bool → KeepAlive → KeepAlive
unfolding resume next_write
on_read_done done_ok k = next_write (if done_ok then k else resume false k)

unfoldable pub on_write_done : Bool → KeepAlive → KeepAlive
unfolding resume
on_write_done done_ok k = if done_ok then act (start_read ∷ []) k else resume false k

unfoldable pub cancel : KeepAlive → KeepAlive
unfolding CallContext.cancel_call
cancel k = record k { call = CallContext.cancel_call k.call }
