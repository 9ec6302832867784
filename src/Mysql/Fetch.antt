-- ===== src/Mysql/Fetch.antt =====
-- The turns of HandleState (mysql_async_con.cc) that fetch a row which is at hand, one by one.
use ltapp.Base.{ℕ, suc, ◌≡◌, refl, ap, ◌∙◌, Bool, true, List, [], ◌∷◌, ◌++◌, Option, none, some}
use ltapp.Outcome.{Outcome, ok, check_some}
use ltapp.Mysql.Session.{ResultRow}
use ltapp.Mysql.Store
use ltapp.Mysql.Store.{Store}
use ltapp.Mysql.Api.{MysqlApi, ResultSet, Row}
use ltapp.Mysql.Conn.{State, Conn, goto, go_next_state}
use ltapp.Mysql.Conn.Step.{
  handle_fetch_start, handle_row_ready, end_of_rows, store_row, add_row, left_fields, read_row,
}
use ltapp.Mysql.Conn.Entry.{dispatch, step, handle_state}
use ltapp.Mysql.Answer.{check_some-some, modified-results, add_row-results}

module _ {M : Type 0} (api : MysqlApi M) where
  -- From the handle `m` on, the library gives these rows and then the end, without waiting.
  abbrev pub Gives : List Row → M → Type 0
  Gives [] m =
      (res : ResultSet) (row : Option Row)
      → ((api.fetch_row_start res row m).status ≡ 0) × ((api.fetch_row_start res row m).out ≡ none)
  Gives (r ∷ rows) m =
      (res : ResultSet) (row : Option Row)
      → ((api.fetch_row_start res row m).status ≡ 0)
        × ((api.fetch_row_start res row m).out ≡ some r)
        × Gives rows (api.fetch_row_start res row m).handle

  -- A connection that fetches the rows of query `q`.
  pub record Fetching (q : ℕ) (res : ResultSet) (c : Conn M) : Type 0 where
    pub state : c.current_state ≡ State.fetch_row_start
    pub current : c.in_process ≡ some q
    pub fetched : c.result ≡ some res

  abbrev pub results : ℕ → Conn M → List ResultRow
  results q c = (c.store.sessions q).results

  pub one_turn :
      (n e : ℕ) (c c' : Conn M)
      → step api e c ≡ ok (c', true)
      → handle_state api (suc n) e c ≡ handle_state api n e c'
  unfolding handle_state
  one_turn n e c c' h = rw (handle_state, h) refl

  -- The connection after a fetch that is complete.
  abbrev pub after_fetch : ResultSet → Conn M → Conn M
  after_fetch res c = record c {
    current_state = State.fetch_row_result_ready;
    result_row = (api.fetch_row_start res c.result_row c.mysql).out;
    mysql = (api.fetch_row_start res c.result_row c.mysql).handle;
  }

  pub fetch_turn :
      (e q : ℕ) (res : ResultSet) (c : Conn M)
      → Fetching q res c
      → (api.fetch_row_start res c.result_row c.mysql).status ≡ 0
      → step api e c ≡ ok (after_fetch res c, true)
  unfolding step dispatch handle_fetch_start go_next_state goto check_some
  fetch_turn e q res c f z = rw (f.state, f.fetched, z) refl

  abbrev pub after_row : ℕ → ResultSet → Row → Conn M → Conn M
  after_row q res row c = record c {
    current_state = State.fetch_row_start;
    store = Store.modify q (add_row api res row) c.store;
    result = some (left_fields api res (c.store.sessions q));
  }

  pub ready_turn :
      (e q : ℕ) (res : ResultSet) (c : Conn M)
      → c.current_state ≡ State.fetch_row_result_ready
      → c.in_process ≡ some q
      → c.result ≡ some res
      → step api e c ≡ handle_row_ready api q res c
  unfolding step dispatch
  ready_turn e q res c s p f =
      ap (λ x. dispatch api e x c) s ∙ check_some-some _ p ∙ check_some-some _ f

  -- handle_row_ready by the row.
  abbrev pub by_row : ℕ → ResultSet → Conn M → Option Row → Outcome (Conn M × Bool)
  by_row q res c o = elim o [
    | none ↦ end_of_rows api q res c
    | some row ↦ store_row api q res row c
  ]

  pub row_turn :
      (e q : ℕ) (res : ResultSet) (row : Row) (c : Conn M)
      → c.current_state ≡ State.fetch_row_result_ready
      → c.in_process ≡ some q
      → c.result ≡ some res
      → c.result_row ≡ some row
      → step api e c ≡ ok (after_row q res row c, true)
  unfolding handle_row_ready store_row go_next_state goto
  row_turn e q res row c s p f r = ready_turn e q res c s p f ∙ ap (by_row q res c) r

  pub after_row-results :
      (q : ℕ) (res : ResultSet) (row : Row) (c : Conn M)
      → results q (after_row q res row c) ≡ results q c ++ read_row 0 res.num_fields row ∷ []
  after_row-results q res row c =
      modified-results q (add_row api res row) c.store
      ∙ add_row-results api res row (c.store.sessions q)

  pub after_row-Fetching :
      (q : ℕ) (res : ResultSet) (row : Row) (c : Conn M)
      → c.in_process ≡ some q
      → Fetching q (left_fields api res (c.store.sessions q)) (after_row q res row c)
  after_row-Fetching q res row c p = record { state = refl; current = p; fetched = refl }
  -- The query's end: it is told, its rows are `rows` behind those that it had, and the connection is
  -- idle.
