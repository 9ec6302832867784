-- ===== src/Etcd/Watch/Stop.antt =====
-- StopWatch (content/etcdv3/context/watch_context.cc), and the loop of the watch after it.
use ltapp.Base.{
  ◌&&◌, ℕ, ◌+◌, ◌≡◌, ap, ◌∙◌, Bool, true, not, List, [], ◌∷◌, ◌++◌, if◌then◌else◌, arith,
  append-nil, append_assoc,
}
use ltapp.Base.Int.{pos}
use ltapp.Outcome.{ok}
use ltapp.Etcd.Watch.{
  CreateRequest, cancel_watch, writes_done, WatchResponse, WatchContext, await_write, await_read,
  start, Reading, take_reading, watch_change_loop, stop_watch,
}

-- For a positive watch id, StopWatch whose two writes succeed sends the cancellation of that
-- id and the end of the writes, cancels the reading side, and gives true.
stop_watch-cancels :
    (co n : ℕ) (w : WatchContext)
    → w.watch_id ≡ pos (n + 1)
    → ((stop_watch co true true w).0.sent ≡ w.sent ++ cancel_watch w.watch_id ∷ writes_done ∷ [])
      × ((stop_watch co true true w).0.read_ctx.cancel ≡ true)
      × ((stop_watch co true true w).1 ≡ true)
unfolding stop_watch
stop_watch-cancels co n w e =
    ground (arith, append_assoc w.sent (cancel_watch w.watch_id ∷ []) (writes_done ∷ []))

stop_watch-handlers :
    (co : ℕ) (w : WatchContext) → (stop_watch co true true w).0.handlers ≡ w.handlers
unfolding stop_watch
stop_watch-handlers co w = ground arith

last_round :
    (co : ℕ) (r : Reading) (rs : List Reading) (w : WatchContext)
    → w.read_ctx.cancel ≡ true
    → ((watch_change_loop co (r ∷ rs) w).0.handlers
        ≡ w.handlers
          ++ (if r.read_ok && not r.response.canceled then r.response.events ∷ [] else []))
      × ((watch_change_loop co (r ∷ rs) w).1 ≡ true)
unfolding watch_change_loop await_read take_reading
last_round co r rs w n = ground (arith, append-nil w.handlers)

-- For a positive watch id, StopWatch whose two writes succeed sends the cancellation of that
-- id and the end of the writes, and gives true. The loop of the watch ends with its next
-- reading then, whatever that is, and gives its events to the handler only if it is good.
pub stop_watch-ends_loop :
    (co co' n : ℕ) (w : WatchContext) (r : Reading) (rs : List Reading)
    → w.watch_id ≡ pos (n + 1)
    → (((stop_watch co true true w).0.sent ≡ w.sent ++ cancel_watch w.watch_id ∷ writes_done ∷ [])
        × ((stop_watch co true true w).1 ≡ true))
      × ((watch_change_loop co' (r ∷ rs) (stop_watch co true true w).0).0.handlers
          ≡ w.handlers
            ++ (if r.read_ok && not r.response.canceled then r.response.events ∷ [] else []))
      × ((watch_change_loop co' (r ∷ rs) (stop_watch co true true w).0).1 ≡ true)
stop_watch-ends_loop co co' n w r rs e =
    let (sent, cancelled, gave) = stop_watch-cancels co n w e in
    let (handled, ended) = last_round co' r rs (stop_watch co true true w).0 cancelled in
    (
      (sent, gave),
      handled
          ∙ ap
              (λ l.
                l ++ (if r.read_ok && not r.response.canceled then r.response.events ∷ [] else []))
              (stop_watch-handlers co w),
      ended,
    )

-- A watch that the server created under the id 0 is started, but StopWatch then gives true
-- without sending anything or cancelling the reading side.
start-stop_zero :
    (co : ℕ) (request : CreateRequest) (response : WatchResponse) (w w' : WatchContext)
    (cancel_ok done_ok : Bool)
    → response.watch_id ≡ pos 0
    → start co request true true response w ≡ ok (w', true)
    → stop_watch co cancel_ok done_ok w' ≡ (w', true)
unfolding start stop_watch await_read await_write
start-stop_zero co request response w w' cancel_ok done_ok z h = ground arith
