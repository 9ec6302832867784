-- ===== src/Mysql/Client/Fuel.antt =====
-- More fuel changes nothing in what a history of the client (mysql_client_impl.cc) returns, and one
-- history after another is one history.
use ltapp.Base.{true, ℕ, ◌≡◌, refl, Option, none, some, List, [], ◌∷◌, ◌++◌, get_elem?}
use ltapp.Base.Count.{take_at}
use ltapp.Mysql.Store
use ltapp.Mysql.Api.{MysqlApi}
use ltapp.Mysql.Run.{Run, returned, aborted, out_of_fuel, and_then, of_outcome}
use ltapp.Mysql.Conn.{Conn}
use ltapp.Mysql.History.{Call, starts, syncs_close, perform}
use ltapp.Mysql.Fuel.{Lasts, Lasts-and_then, Lasts-same, perform-Lasts}
use ltapp.Mysql.Client.{
  Client, Task, query_done, start_query_on, sync_close_on, pending_query, close,
}
use ltapp.Mysql.Client.Work.{
  Event, submits, runs, calls, closes_client, put_back, on_connection, run_task, happen, run_events,
}

module _ {M : Type 0} (api : MysqlApi M) where
  on_connection-Lasts :
      (i : ℕ) (call : Call) (k : Client M) → Lasts (λ n. on_connection api n i call k)
  unfolding on_connection
  on_connection-Lasts i call k = go (get_elem? k.connections i)
    where
      go :
          (o : Option (Conn M))
          → Lasts (λ n. elim o [
            | none ↦ aborted
            | some c ↦
                and_then
                  (perform api n call (record c { store = k.store }))
                  λ c'. returned (put_back i c' k)
          ])
      go none = Lasts-same aborted
      go (some c) =
          Lasts-and_then (λ n. perform api n call (record c { store = k.store }))
            (λ n c'. returned (put_back i c' k))
            (perform-Lasts api call (record c { store = k.store }))
            (λ c'. Lasts-same (returned (put_back i c' k)))

  run_task-Lasts : (t : Task) (k : Client M) → Lasts (λ n. run_task api n t k)
  unfolding run_task
  run_task-Lasts (query_done q) k =
      Lasts-same (returned (record k { store = Store.complete q k.store }))
  run_task-Lasts (start_query_on i q) k = on_connection-Lasts i (starts q) k
  run_task-Lasts (sync_close_on i) k = on_connection-Lasts i syncs_close k

  pub happen-Lasts : (e : Event) (k : Client M) → Lasts (λ n. happen api n e k)
  unfolding happen
  happen-Lasts (submits q) k = Lasts-same (of_outcome (pending_query true q k))
  happen-Lasts (runs j) k = go (take_at k.tasks j)
    where
      go :
          (o : Option (Task × List Task))
          → Lasts (λ n. elim o [
            | none ↦ returned k
            | some (t, rest) ↦ run_task api n t (record k { tasks = rest })
          ])
      go none = Lasts-same (returned k)
      go (some (t, rest)) = run_task-Lasts t (record k { tasks = rest })
  happen-Lasts (calls i call) k = on_connection-Lasts i call k
  happen-Lasts closes_client k = Lasts-same (returned (close k))

  pub run_events-Lasts : (es : List Event) (k : Client M) → Lasts (λ n. run_events api n es k)
  unfolding run_events
  run_events-Lasts [] k = Lasts-same (returned k)
  run_events-Lasts (e ∷ es) k =
      Lasts-and_then (λ n. happen api n e k) (λ n k'. run_events api n es k') (happen-Lasts e k)
        (run_events-Lasts es)

  and_then-cong :
      {A B C : Type 0} (r : Run A) (f : A → Run B) (g : B → Run C) (h : A → Run C)
      → ((a : A) → h a ≡ and_then (f a) g)
      → and_then r h ≡ and_then (and_then r f) g
  and_then-cong (returned a) f g h e = e a
  and_then-cong aborted f g h e = refl
  and_then-cong out_of_fuel f g h e = refl

  -- One history after another.
  pub run_events-append :
      (n : ℕ) (es fs : List Event) (k : Client M)
      → run_events api n (es ++ fs) k
        ≡ and_then (run_events api n es k) (λ k'. run_events api n fs k')
  unfolding run_events
  run_events-append n [] fs k = refl
  run_events-append n (e ∷ es) fs k =
      and_then-cong (happen api n e k) _ _ _ (λ k'. run_events-append n es fs k')
