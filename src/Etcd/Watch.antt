-- ===== src/Etcd/Watch.antt =====
-- WatchContext of content/etcdv3/context/watch_context.h and .cc, with the request that
-- EtcdWatcher::Watch of content/etcdv3/etcd_watcher.cc builds. What the stream answers to a write or
-- a read is an argument of the operation that waits for it.
pub mod Created
pub mod Readings
pub mod Stop
pub mod Watcher
mod Tests
use ltapp.Base.{
  ℕ, ◌+◌, ◌≡◌, refl, ap, sym, ◌∙◌, Bool, true, false, not, ◌||◌, List, [], ◌∷◌, ◌++◌, map, Option,
  none, some, if◌then◌else◌, ◌==◌, arith, append-nil, append_assoc, ◌⊎◌,
}
use ltapp.Base.Int.{ℤ, pos, negsuc}
use ltapp.Outcome.{Outcome, ok, abort, ◌>>=◌}
use ltapp.Etcd.CallContext
use ltapp.Etcd.CallContext.{CallContext}
use ltapp.Etcd.Prefix.{range_end}

pub record CreateRequest : Type 0 where
  pub key : List ℕ
  pub range_end : Option (List ℕ)
  pub prev_kv : Bool
  pub start_revision : ℕ
  pub watch_id : ℕ

pub data Sent : Type 0 where
  create : CreateRequest → Sent
  cancel_watch : ℤ → Sent
  writes_done : Sent

-- A WatchResponse; events are named by numbers.
pub record WatchResponse : Type 0 where
  pub created : Bool
  pub canceled : Bool
  pub watch_id : ℤ
  pub events : List ℕ

pub record WatchContext : Type 0 where
  pub watch_id : ℤ
  pub read_ctx : CallContext
  pub write_ctx : CallContext
  pub sent : List Sent
  -- The coroutines that call the handler: the events of each, in order.
  pub handlers : List (List ℕ)
  -- The coroutine of watch_change_loop was started.
  pub looping : Bool

unfoldable pub new : WatchContext
unfolding CallContext.new
new = record {
  watch_id = negsuc 0;
  read_ctx = CallContext.new;
  write_ctx = CallContext.new;
  sent = [];
  handlers = [];
  looping = false;
}

-- EtcdWatcher::Watch(key, with_prefix, callback): the request; `none` for the empty key with a prefix.
unfoldable pub watch_request : List ℕ → Bool → Option CreateRequest
unfolding range_end
watch_request key with_prefix =
    if with_prefix
    then elim (range_end key) [ none ↦ none | some e ↦ some (request (some e)) ]
    else some (request none)
  where
    request : Option (List ℕ) → CreateRequest
    request e = record {
      key = key;
      range_end = e;
      prev_kv = true;
      start_revision = 0;
      watch_id = 1;
    }

-- OnReadDone, OnWriteDone and OnWritesDoneDone.
unfoldable pub on_read_done : Bool → WatchContext → WatchContext
unfolding CallContext.resume_context
on_read_done done_ok w = record w { read_ctx = CallContext.resume_context done_ok w.read_ctx }

unfoldable pub on_write_done : Bool → WatchContext → WatchContext
unfolding CallContext.resume_context
on_write_done done_ok w = record w { write_ctx = CallContext.resume_context done_ok w.write_ctx }

unfoldable pub on_writes_done_done : Bool → WatchContext → WatchContext
unfolding CallContext.resume_context
on_writes_done_done done_ok w = record w {
  write_ctx = CallContext.resume_context done_ok w.write_ctx;
}

-- write_ctx_.LockContext() and StartWrite or StartWritesDone.
unfoldable pub start_write : ℕ → Sent → WatchContext → WatchContext
unfolding CallContext.lock_context
start_write co s w = record w {
  write_ctx = (CallContext.lock_context co w.write_ctx).0;
  sent = w.sent ++ s ∷ [];
}

-- The same, and CO_YIELD until the callback of the write has resumed the coroutine.
unfoldable pub await_write : ℕ → Sent → Bool → WatchContext → WatchContext
unfolding start_write on_write_done
await_write co s done_ok w = on_write_done done_ok (start_write co s w)

unfoldable pub await_writes_done : ℕ → Bool → WatchContext → WatchContext
unfolding start_write on_writes_done_done
await_writes_done co done_ok w = on_writes_done_done done_ok (start_write co writes_done w)

unfoldable pub await_read : ℕ → Bool → WatchContext → WatchContext
unfolding CallContext.lock_context on_read_done
await_read co done_ok w =
    on_read_done done_ok (record w { read_ctx = (CallContext.lock_context co w.read_ctx).0 })

abbrev pub is_nonneg : ℤ → Bool
is_nonneg (pos n) = true
is_nonneg (negsuc n) = false

abbrev pub is_positive : ℤ → Bool
is_positive (pos n) = not (n == 0)
is_positive (negsuc n) = false

-- Start: CHECK(response.created()). The loop is started also where the result is false for a
-- negative id.
unfoldable pub start :
    ℕ → CreateRequest → Bool → Bool → WatchResponse → WatchContext → Outcome (WatchContext × Bool)
start co request write_ok read_ok response w =
    let w' = await_write co (create request) write_ok w in
    let w'' = await_read co read_ok w' in
    if not w'.write_ctx.success
    then ok (w', false)
    else (if not w''.read_ctx.success
        then ok (w'', false)
        else (if response.created
            then ok (
              record w'' { watch_id = response.watch_id; looping = true },
              is_nonneg response.watch_id,
            )
            else abort))

-- EtcdWatcher::Watch(request, callback): `none` for nullptr.
unfoldable pub watch :
    ℕ → CreateRequest → Bool → Bool → WatchResponse → Outcome (Option WatchContext)
unfolding start new
watch co request write_ok read_ok response = do
  (w, started) ← start co request write_ok read_ok response new
  ok (if started then some w else none)

-- What the loop meets in one round: the answer to its read, and whether read_ctx_ was cancelled by
-- the time of its test.
pub record Reading : Type 0 where
  pub read_ok : Bool
  pub response : WatchResponse
  pub cancelled : Bool

-- The read of a round, and the coroutine for its events.
unfoldable pub take_reading : ℕ → Reading → WatchContext → WatchContext
take_reading co r w =
    let w' = await_read co r.read_ok w in
    record w' { handlers = w'.handlers ++ r.response.events ∷ [] }

-- watch_change_loop over the readings that come; `true` says that it has ended.
unfoldable pub watch_change_loop : ℕ → List Reading → WatchContext → WatchContext × Bool
unfolding await_read take_reading
watch_change_loop co [] w = (w, false)
watch_change_loop co (r ∷ rs) w =
    let rest = watch_change_loop co rs (take_reading co r w) in
    if not (await_read co r.read_ok w).read_ctx.success || r.response.canceled
    then (await_read co r.read_ok w, true)
    else (if (take_reading co r w).read_ctx.cancel || r.cancelled
        then (take_reading co r w, true)
        else rest)

-- StopWatch, with the answers to its two writes.
unfoldable pub stop_watch : ℕ → Bool → Bool → WatchContext → WatchContext × Bool
unfolding await_write await_writes_done CallContext.cancel_call
stop_watch co cancel_ok done_ok w =
    let w' = await_write co (cancel_watch w.watch_id) cancel_ok w in
    let w'' =
      await_writes_done co done_ok (record w' { read_ctx = CallContext.cancel_call w'.read_ctx }) in
    if is_positive w.watch_id
    then (if not w'.write_ctx.success then (w', false) else (w'', w''.write_ctx.success))
    else (w, true)

-- OnDone
unfoldable pub on_done : WatchContext → WatchContext
unfolding CallContext.cancel_call
on_done w = record w { read_ctx = CallContext.cancel_call w.read_ctx }
