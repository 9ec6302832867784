-- ===== src/Mysql/Client/Work.antt =====
-- The client with its connections at work: the tasks that PendingQuery and Close
-- (mysql_client_impl.cc) post are run, and between them the connections' own events are handled, in
-- any order. A query is submitted from a thread with a loop. Sessions are shared: a connection works on the client's store.
pub mod Places
pub mod Whereabouts
pub mod Growth
pub mod Service
use ltapp.Base.{
  true, ℕ, zero, suc, ◌+◌, ◌≡◌, refl, ap, ◌∙◌, Option, none, some, List, [], ◌∷◌, ◌++◌, arith,
  opt_list, Option-cases, inl, inr, get_elem?,
}
use ltapp.Base.Count.{count, count-append, set_elem, take_at}
use ltapp.Base.Int.{negsuc}
use ltapp.Outcome.{Ensures, holds, stops, Ensures-bind}
use ltapp.Mysql.Session
use ltapp.Mysql.Store
use ltapp.Mysql.Store.{Store}
use ltapp.Mysql.Api.{MysqlApi}
use ltapp.Mysql.Run.{
  Run, returned, aborted, of_outcome, and_then, Leaves, leaves, aborts, Leaves-and_then,
  Leaves-returned, Leaves-outcome, Leaves-map,
}
use ltapp.Mysql.Conn.{Conn}
use ltapp.Mysql.Refine.{view, finished-complete}
use ltapp.Mysql.History.{order, Call, starts, syncs_close, given, perform, perform-Keeps}
use ltapp.Mysql.Client.{
  Client, Task, query_done, start_query_on, sync_close_on, close, close_tasks, pending_query,
  get_client, next_index, dispatch_query,
}

-- What happens to a client: a query is handed to it, the task at a position of the queues is run, a
-- connection is called, or the client is closed.
pub data Event : Type 0 where
  submits : ℕ → Event
  runs : ℕ → Event
  calls : ℕ → Call → Event
  closes_client : Event

module _ {M : Type 0} where
  -- A connection after a call, and the sessions as the call left them.
  unfoldable pub put_back : ℕ → Conn M → Client M → Client M
  put_back i c k = record k { connections = set_elem k.connections i c; store = c.store }

module _ {M : Type 0} (api : MysqlApi M) where
  -- A call of connection `i`, on the client's store.
  unfoldable pub on_connection : ℕ → ℕ → Call → Client M → Run (Client M)
  unfolding put_back
  on_connection fuel i call k = elim (get_elem? k.connections i) [
    | none ↦ aborted
    | some c ↦
        and_then (perform api fuel call (record c { store = k.store }))
          λ c'. returned (put_back i c' k)
  ]

  unfoldable pub run_task : ℕ → Task → Client M → Run (Client M)
  unfolding on_connection
  run_task fuel (query_done q) k = returned (record k { store = Store.complete q k.store })
  run_task fuel (start_query_on i q) k = on_connection fuel i (starts q) k
  run_task fuel (sync_close_on i) k = on_connection fuel i syncs_close k

  unfoldable pub happen : ℕ → Event → Client M → Run (Client M)
  unfolding run_task on_connection
  happen fuel (submits q) k = of_outcome (pending_query true q k)
  happen fuel (runs j) k = elim (take_at k.tasks j) [
    | none ↦ returned k
    | some (t, rest) ↦ run_task fuel t (record k { tasks = rest })
  ]
  happen fuel (calls i call) k = on_connection fuel i call k
  happen fuel closes_client k = returned (close k)

  unfoldable pub run_events : ℕ → List Event → Client M → Run (Client M)
  run_events fuel [] k = returned k
  run_events fuel (e ∷ es) k = and_then (happen fuel e k) λ k'. run_events fuel es k'
