-- ===== src/Mysql/Client/Work/Whereabouts.antt =====
-- Where the queries are that a client at work (mysql_client_impl.cc) was handed: none is lost, and
-- none is done twice.
use ltapp.Base.{
  Bool, true, false, ℕ, ◌+◌, ◌≡◌, refl, ap, ◌∙◌, Option, none, some, List, [], ◌∷◌, ◌++◌, arith,
  Option-cases, inl, inr, get_elem?,
}
use ltapp.Base.Count.{count, count-append, take_at}
use ltapp.Base.Int.{negsuc}
use ltapp.Outcome.{Ensures-map, Ensures, holds, stops, Ensures-bind}
use ltapp.Mysql.Session
use ltapp.Mysql.Store
use ltapp.Mysql.Store.{Store}
use ltapp.Mysql.Api.{MysqlApi}
use ltapp.Mysql.Run.{
  Run, returned, Leaves, leaves, aborts, Leaves-and_then, Leaves-returned, Leaves-outcome,
  Leaves-map,
}
use ltapp.Mysql.Conn.{Conn}
use ltapp.Mysql.Refine.{view, finished-complete}
use ltapp.Mysql.History.{order, Call, starts, syncs_close, given, perform-Keeps}
use ltapp.Mysql.Client.{
  Client, Task, query_done, start_query_on, sync_close_on, close, close_tasks, pending_query,
  get_client, next_index, dispatch_query, hand_back, post,
}
use ltapp.Mysql.Client.Work.{
  Event, submits, runs, calls, closes_client, put_back, on_connection, run_task, happen, run_events,
}
use ltapp.Mysql.Client.Work.Places.{
  handed, all_handed, left, held, carried, queued, whereabouts, Parts, held-set_elem, take_at-Parts,
  queued-append, queued-close_tasks,
}

module _ {M : Type 0} (api : MysqlApi M) where
  -- Query `a` is somewhere as often as before, and `n` times more.
  abbrev Adds : ℕ → ℕ → Client M → Run (Client M) → Type 0
  Adds a n k r = Leaves (λ k'. count a (whereabouts k') ≡ count a (whereabouts k) + n) r

  whereabouts-count :
      (a : ℕ) (k : Client M)
      → count a (whereabouts k)
        ≡ count a k.store.finished + (count a (held k.connections) + count a (queued k.tasks))
  whereabouts-count a k = omega (
    arith,
    count-append a k.store.finished (held k.connections ++ queued k.tasks),
    count-append a (held k.connections) (queued k.tasks),
  )

  on_connection-Adds :
      (a n i : ℕ) (call : Call) (k : Client M)
      → Adds a (count a (given call)) k (on_connection api n i call k)
  unfolding on_connection
  on_connection-Adds a n i call k = go (get_elem? k.connections i) refl
    where
      put_back-count :
          (c c' : Conn M)
          → get_elem? k.connections i ≡ some c
          → order (view c') ≡ (k.store.finished ++ left c) ++ given call
          → count a (whereabouts (put_back i c' k)) ≡ count a (whereabouts k) + count a (given call)
      put_back-count c c' e s = omega (
        arith,
        whereabouts-count a (put_back i c' k),
        whereabouts-count a k,
        held-set_elem a k.connections i c c' e,
        ap (count a) s,
        count-append a c'.store.finished (left c'),
        count-append a (k.store.finished ++ left c) (given call),
        count-append a k.store.finished (left c),
      )

      go :
          (o : Option (Conn M))
          → get_elem? k.connections i ≡ o
          → Adds a (count a (given call)) k (on_connection api n i call k)
      go none e = rw (e, on_connection) aborts
      go (some c) e =
          rw (e, on_connection)
            (Leaves-and_then (perform-Keeps api n call (record c { store = k.store }))
              (λ c' f. leaves (put_back-count c c' e f.in_order)))

  query_done-Adds :
      (a q : ℕ) (k : Client M)
      → count a (whereabouts (record k { store = Store.complete q k.store }))
        ≡ count a (whereabouts k) + count a (q ∷ [])
  query_done-Adds a q k = omega (
    arith,
    whereabouts-count a (record k { store = Store.complete q k.store }),
    whereabouts-count a k,
    ap (count a) (finished-complete q k.store),
    count-append a k.store.finished (q ∷ []),
  )

  -- A task at the end of the queues.
  post-count :
      (a : ℕ) (ts : List Task) (k : Client M)
      → count a (whereabouts (record k { tasks = k.tasks ++ ts }))
        ≡ count a (whereabouts k) + count a (queued ts)
  post-count a ts k = omega (
    arith,
    whereabouts-count a (record k { tasks = k.tasks ++ ts }),
    whereabouts-count a k,
    queued-append a k.tasks ts,
  )

  run_task-Adds :
      (a n : ℕ) (t : Task) (k : Client M) → Adds a (count a (carried t)) k (run_task api n t k)
  unfolding run_task
  run_task-Adds a n (query_done q) k = leaves (query_done-Adds a q k)
  run_task-Adds a n (start_query_on i q) k = on_connection-Adds a n i (starts q) k
  run_task-Adds a n (sync_close_on i) k = on_connection-Adds a n i syncs_close k

  dispatch_query-Adds :
      (b : Bool) (a q : ℕ) (o : Option ℕ) (k : Client M)
      → Ensures
          (λ k'. count a (whereabouts k') ≡ count a (whereabouts k) + count a (q ∷ []))
          (dispatch_query b q o k)
  unfolding dispatch_query hand_back post Store.modify
  dispatch_query-Adds true a q none k = holds (
      post-count a (query_done q ∷ []) (record k {
        store = Store.modify q (Session.set_code (negsuc 0) "connection not ready") k.store;
      }))
  dispatch_query-Adds false a q none k = stops
  dispatch_query-Adds b a q (some i) k = holds (post-count a (start_query_on i q ∷ []) k)

  get_client-whereabouts :
      (k : Client M) → Ensures (λ r. whereabouts r.0 ≡ whereabouts k) (get_client k)
  unfolding get_client
  get_client-whereabouts k = elim (Option-cases (get_elem? k.connections (next_index k))) [
    | inl e ↦ rw (e, get_client) stops
    | inr (con, e) ↦ rw (e, get_client) (holds refl)
  ]

  pub pending_query-Adds :
      (b : Bool) (a q : ℕ) (k : Client M)
      → Ensures
          (λ k'. count a (whereabouts k') ≡ count a (whereabouts k) + count a (q ∷ []))
          (pending_query b q k)
  unfolding pending_query
  pending_query-Adds b a q k = Ensures-bind (get_client-whereabouts k) λ r h.
      Ensures-map (λ k' m. m ∙ ap (λ l. count a l + count a (q ∷ [])) h)
        (dispatch_query-Adds b a q r.1 r.0)

  runs-Adds : (a n j : ℕ) (k : Client M) → Adds a 0 k (happen api n (runs j) k)
  unfolding happen
  runs-Adds a n j k = go (take_at k.tasks j) refl (take_at-Parts a k.tasks j)
    where
      go :
          (o : Option (Task × List Task))
          → take_at k.tasks j ≡ o
          → Parts a k.tasks o
          → Adds a 0 k (happen api n (runs j) k)
      go none e h = rw (e, happen) (leaves (omega arith))
      go (some (t, rest)) e h =
          rw (e, happen)
            (Leaves-map
              (λ k' m. omega (
                arith,
                m,
                h,
                whereabouts-count a (record k { tasks = rest }),
                whereabouts-count a k,
              ))
              (run_task-Adds a n t (record k { tasks = rest })))

  pub happen-Adds :
      (a n : ℕ) (e : Event) (k : Client M) → Adds a (count a (handed e)) k (happen api n e k)
  unfolding happen close
  happen-Adds a n (submits q) k = Leaves-outcome (pending_query-Adds true a q k)
  happen-Adds a n (runs j) k = runs-Adds a n j k
  happen-Adds a n (calls i call) k = on_connection-Adds a n i call k
  happen-Adds a n closes_client k = leaves (
      post-count a (close_tasks 0 k.connections) k
      ∙ ap (λ m. count a (whereabouts k) + m) (queued-close_tasks a 0 k.connections))

  pub run_events-Adds :
      (a n : ℕ) (es : List Event) (k : Client M)
      → Adds a (count a (all_handed es)) k (run_events api n es k)
  unfolding run_events
  run_events-Adds a n [] k = leaves (omega arith)
  run_events-Adds a n (e ∷ es) k = Leaves-and_then (happen-Adds a n e k) λ k' h.
      Leaves-map (λ k'' m. omega (arith, m, h, count-append a (handed e) (all_handed es)))
        (run_events-Adds a n es k')

  -- No query is lost, and none is done twice: whatever is submitted, whichever tasks are run
  -- and whatever the connections meet, in any order, if it all returns, then every query is
  -- done, with a connection or in a task as often in all as it was before and was handed to
  -- the client since.
  pub run_events-whereabouts :
      (n : ℕ) (es : List Event) (k k' : Client M)
      → run_events api n es k ≡ returned k'
      → (a : ℕ) → count a (whereabouts k') ≡ count a (whereabouts k) + count a (all_handed es)
  run_events-whereabouts n es k k' h a = Leaves-returned (run_events-Adds a n es k) h
