-- ===== src/Mysql/Client/Total.antt =====
-- A client whose connections are in their loops (mysql_client_impl.cc): what it does returns, and
-- leaves such a client.
use ltapp.Base.{ℕ, ◌≡◌, refl, ap, Option, none, some, List, length, get_elem?}
use ltapp.Base.Count.{take_at}
use ltapp.Outcome.{Returns-ok}
use ltapp.Mysql.Api.{MysqlApi}
use ltapp.Mysql.Run.{Run, returned, and_then, of_outcome}
use ltapp.Mysql.Store
use ltapp.Mysql.Store.{Store}
use ltapp.Mysql.Conn.{Conn}
use ltapp.Mysql.Safety.{Inv}
use ltapp.Mysql.Total.{GivesRowsOnce}
use ltapp.Mysql.Methods.{start_query-total, event-total, time_out-total, sync_close-Inv}
use ltapp.Mysql.History.{Call, starts, syncs_close, event, times_out, perform}
use ltapp.Mysql.Client.{
  Client, close, Task, query_done, start_query_on, sync_close_on, pending_query-in_loop,
  get_elem?-in,
}
use ltapp.Mysql.Client.Work.{Event, runs, put_back, on_connection, run_task, happen}
use ltapp.Mysql.Client.Sound.{
  For, TakenFor, AllInv-get, take_at-AllFor, on_store, put_back-Sound, Passes-Sound, Sound, Comes,
  query, task, closing, io, timer, close-Sound,
}

module _ {M : Type 0} (rows_left : M → ℕ) (api : MysqlApi M)
    (once : GivesRowsOnce rows_left api) where
  abbrev Returning : (ℕ → Run (Client M)) → Type 0
  Returning run = (n : ℕ) × (k' : Client M) × (run n ≡ returned k') × Sound k'

  on_connection-total :
      (i : ℕ) (call : Call) (k : Client M) (c : Conn M)
      → Sound k
      → get_elem? k.connections i ≡ some c
      → (n : ℕ) (c' : Conn M) → perform api n call (record c { store = k.store }) ≡ returned c'
      → Inv c'
      → Returning (λ n. on_connection api n i call k)
  unfolding on_connection
  on_connection-total i call k c v e n c' r w = (
    n,
    put_back i c' k,
    rw (e, on_connection) (ap (λ x. and_then x (λ d. returned (put_back i d k))) r),
    put_back-Sound i c' k v w,
  )

  run_task-total :
      (t : Task) (k : Client M)
      → Sound k
      → For (length k.connections) t
      → Returning (λ n. run_task api n t k)
  unfolding run_task perform
  run_task-total (query_done q) k v f = (
    0,
    record k { store = Store.complete q k.store },
    refl,
    record { connections = v.connections; tasks = v.tasks; has_one = v.has_one },
  )
  run_task-total (start_query_on i q) k v f =
      let (c, e) = get_elem?-in k.connections i f in
      let (n, c', r, w, o) =
        start_query-total rows_left api once q (record c { store = k.store })
          (on_store c k.store (AllInv-get k.connections i c v.connections e)) in
      on_connection-total i (starts q) k c v e n c' r w
  run_task-total (sync_close_on i) k v f =
      let (c, e) = get_elem?-in k.connections i f in
      let (c', r, (w, _)) = Returns-ok (
        sync_close-Inv api (record c { store = k.store })
          (on_store c k.store (AllInv-get k.connections i c v.connections e))) in
      on_connection-total i syncs_close k c v e 0 c' (ap of_outcome r) w

  runs-total : (j : ℕ) (k : Client M) → Sound k → Returning (λ n. happen api n (runs j) k)
  unfolding happen
  runs-total j k v =
      go (take_at k.tasks j) refl (take_at-AllFor (length k.connections) k.tasks j v.tasks)
    where
      go :
          (o : Option (Task × List Task))
          → take_at k.tasks j ≡ o
          → TakenFor (length k.connections) o
          → Returning (λ n. happen api n (runs j) k)
      go none e h = (0, k, rw (e, happen) refl, v)
      go (some (t, rest)) e h =
          let (n, k', r, w) =
            run_task-total t (record k { tasks = rest })
              (record { connections = v.connections; tasks = h.1; has_one = v.has_one }) h.0 in
          (n, k', rw (e, happen) r, w)

  -- If the client library gives each row once: whatever may happen to a client with a
  -- connection at least and all of them in their loops is handled, be it a query that is
  -- handed over, a task that is run, Close, or an event or a timer of a connection that has
  -- its event installed. It returns, with some fuel, and leaves such a client.
  pub happen-total :
      (ev : Event) (k : Client M)
      → Sound k
      → Comes k ev
      → (n : ℕ) × (k' : Client M) × (happen api n ev k ≡ returned k') × Sound k'
  unfolding happen perform
  happen-total ev k v (query q) =
      let (con, k', r, p) = pending_query-in_loop q k v.has_one in
      (0, k', ap of_outcome r, Passes-Sound q k k' con v p)
  happen-total ev k v (task j) = runs-total j k v
  happen-total ev k v closing = (0, close k, refl, close-Sound k v)
  happen-total ev k v (io i c e h f) =
      let (n, c', r, w, s) =
        event-total rows_left api once e (record c { store = k.store })
          (on_store c k.store (AllInv-get k.connections i c v.connections h)) f in
      on_connection-total i (event e) k c v h n c' r w
  happen-total ev k v (timer i c h f) =
      let (n, c', r, w, s) =
        time_out-total rows_left api once (record c { store = k.store })
          (on_store c k.store (AllInv-get k.connections i c v.connections h)) f in
      on_connection-total i times_out k c v h n c' r w
