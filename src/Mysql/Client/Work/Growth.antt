-- ===== src/Mysql/Client/Work/Growth.antt =====
-- What a client at work (mysql_client_impl.cc) has done stays done: each event adds queries to
-- those that are done, behind them.
use ltapp.Base.{
  true, ℕ, ◌≡◌, refl, sym, ◌∙◌, Option, none, some, List, [], ◌∷◌, ◌++◌, append-nil, Option-cases,
  inl, inr, get_elem?,
}
use ltapp.Base.Count.{take_at}
use ltapp.Outcome.{Ensures-map, Ensures, holds, stops, Ensures-bind}
use ltapp.Mysql.Store
use ltapp.Mysql.Api.{MysqlApi}
use ltapp.Mysql.Run.{Leaves, leaves, aborts, Leaves-and_then, Leaves-outcome}
use ltapp.Mysql.Refine.{finished-complete}
use ltapp.Mysql.History.{Call, starts, syncs_close, perform-Keeps}
use ltapp.Mysql.Client.{
  Client, Task, query_done, start_query_on, sync_close_on, close, pending_query, get_client,
  next_index, dispatch_query, hand_back, post,
}
use ltapp.Mysql.Client.Work.{
  Event, submits, runs, calls, closes_client, put_back, on_connection, run_task, happen,
}

module _ {M : Type 0} where
  -- Since `k`, the queries `ds` were done.
  abbrev pub Done : Client M → Client M → Type 0
  Done k k' = (ds : List ℕ) × (k'.store.finished ≡ k.store.finished ++ ds)

  abbrev none_done : (k k' : Client M) → k'.store.finished ≡ k.store.finished → Done k k'
  none_done k k' e = ([], e ∙ sym (append-nil k.store.finished))

  get_client-store :
      (k : Client M) → Ensures (λ r. r.0.store.finished ≡ k.store.finished) (get_client k)
  unfolding get_client
  get_client-store k = elim (Option-cases (get_elem? k.connections (next_index k))) [
    | inl e ↦ rw (e, get_client) stops
    | inr (con, e) ↦ rw (e, get_client) (holds refl)
  ]

  dispatch_query-store :
      (q : ℕ) (o : Option ℕ) (k : Client M)
      → Ensures (λ k'. k'.store.finished ≡ k.store.finished) (dispatch_query true q o k)
  unfolding dispatch_query hand_back post Store.modify
  dispatch_query-store q none k = holds refl
  dispatch_query-store q (some i) k = holds refl

module _ {M : Type 0} (api : MysqlApi M) where
  on_connection-Done :
      (n i : ℕ) (call : Call) (k : Client M) → Leaves (Done k) (on_connection api n i call k)
  unfolding on_connection put_back
  on_connection-Done n i call k = elim (Option-cases (get_elem? k.connections i)) [
    | inl e ↦ rw (e, on_connection) aborts
    | inr (c, e) ↦
        rw (e, on_connection)
          (Leaves-and_then (perform-Keeps api n call (record c { store = k.store }))
            (λ c' f. leaves (f.since, f.grows)))
  ]

  run_task-Done : (n : ℕ) (t : Task) (k : Client M) → Leaves (Done k) (run_task api n t k)
  unfolding run_task
  run_task-Done n (query_done q) k = leaves (q ∷ [], finished-complete q k.store)
  run_task-Done n (start_query_on i q) k = on_connection-Done n i (starts q) k
  run_task-Done n (sync_close_on i) k = on_connection-Done n i syncs_close k

  runs-Done : (n j : ℕ) (k : Client M) → Leaves (Done k) (happen api n (runs j) k)
  unfolding happen
  runs-Done n j k = elim (Option-cases (take_at k.tasks j)) [
    | inl e ↦ rw (e, happen) (leaves (none_done k k refl))
    | inr ((t, rest), e) ↦ rw (e, happen) (run_task-Done n t (record k { tasks = rest }))
  ]

  -- An event takes nothing back of what is done, and adds what it does behind it.
  pub happen-Done : (n : ℕ) (e : Event) (k : Client M) → Leaves (Done k) (happen api n e k)
  unfolding happen close pending_query
  happen-Done n (submits q) k = Leaves-outcome (
      Ensures-bind (get_client-store k)
        λ r h. Ensures-map (λ k' e. none_done k k' (e ∙ h)) (dispatch_query-store q r.1 r.0))
  happen-Done n (runs j) k = runs-Done n j k
  happen-Done n (calls i call) k = on_connection-Done n i call k
  happen-Done n closes_client k = leaves (none_done k k refl)
