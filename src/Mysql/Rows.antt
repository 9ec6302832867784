-- ===== src/Mysql/Rows.antt =====
-- The rows of a query: the turns of HandleState (mysql_async_con.cc) from FETCH_ROW_START on, when
-- the client library has the rows at hand.
pub mod Drive
pub mod Arrival
pub mod Waits
use ltapp.Base.{
  ℕ, suc, ◌≡◌, refl, sym, ap, subst, ◌∙◌, Bool, true, String, List, [], ◌∷◌, ◌++◌, map, Option,
  none, some, if◌then◌else◌, append-nil, append_assoc,
}
use ltapp.Base.Int.{ℤ, is_zero}
use ltapp.Outcome.{Outcome, ok, check_some}
use ltapp.Mysql.Session
use ltapp.Mysql.Session.{QuerySession, ResultRow}
use ltapp.Mysql.Store
use ltapp.Mysql.Store.{Store}
use ltapp.Mysql.Api.{MysqlApi, ResultSet, Row}
use ltapp.Mysql.Conn.{State, Conn, goto, go_next_state, done_current_query, answer}
use ltapp.Mysql.Conn.Step.{
  handle_fetch_start, handle_row_ready, end_of_rows, store_row, add_row, left_fields, read_row,
}
use ltapp.Mysql.Refine.{finished-complete, finished-modify}
use ltapp.Mysql.Conn.Entry.{dispatch, step, handle_state}
use ltapp.Mysql.Answer.{
  check_some-some, modified-results, completed-results, add_row-results, left_fields-num_fields,
  answer-results,
}
use ltapp.Mysql.Fetch.{
  Gives, results, one_turn, after_fetch, fetch_turn, after_row, ready_turn, by_row, row_turn,
  after_row-results, after_row-Fetching, Fetching,
}

module _ {M : Type 0} (api : MysqlApi M) where
  pub record Served (q : ℕ) (rows : List ResultRow) (c c' : Conn M) : Type 0 where
    pub idle : c'.current_state ≡ State.connection_idle
    pub free : c'.in_process ≡ none
    pub all_rows : (c'.store.sessions q).results ≡ (c.store.sessions q).results ++ rows
    pub told : c'.store.finished ≡ c.store.finished ++ q ∷ []

  -- The connection after DoneCurrentQuery of query `q`.
  abbrev pub told_of : ℤ → Option String → ℕ → Conn M → Conn M
  told_of code message q c = record c {
    store =
        Store.complete q
          (Store.modify q (answer api code message (api.affected_rows c.mysql)) c.store);
    in_process = none;
  }

  pub done_current_query-told :
      (code : ℤ) (message : Option String) (q : ℕ) (c : Conn M)
      → c.in_process ≡ some q
      → done_current_query api code message c ≡ told_of code message q c
  unfolding done_current_query
  done_current_query-told code message q c p =
      ap (λ o. elim o [ none ↦ c | some r ↦ told_of code message r c ]) p

  told_of-Served :
      (code : ℤ) (message : Option String) (q : ℕ) (c : Conn M)
      → Served q [] c (goto State.connection_idle (told_of code message q c))
  unfolding goto
  told_of-Served code message q c = record {
    idle = refl;
    free = refl;
    all_rows =
        completed-results q _ c.store
        ∙ answer-results api code message _ (c.store.sessions q)
        ∙ sym (append-nil (results api q c));
    told = finished-complete q _ ∙ ap (λ l. l ++ q ∷ []) (finished-modify q _ c.store);
  }

  abbrev pub ended : ℕ → ResultSet → Conn M → Conn M
  ended q res c = goto State.connection_idle (
      done_current_query api (api.errno c.mysql)
        (if is_zero (api.errno c.mysql) then none else some (api.error c.mysql))
        (record c {
          store = Store.modify q (Session.set_result_rows (api.num_rows res c.mysql)) c.store;
          mysql = api.free_result res c.mysql;
        }))

  pub end_turn :
      (e q : ℕ) (res : ResultSet) (c : Conn M)
      → c.current_state ≡ State.fetch_row_result_ready
      → c.in_process ≡ some q
      → c.result ≡ some res
      → c.result_row ≡ none
      → step api e c ≡ ok (ended q res c, true)
  unfolding handle_row_ready end_of_rows
  end_turn e q res c s p f r = ready_turn api e q res c s p f ∙ ap (by_row api q res c) r

  -- Another start with the same rows and the same record of queries.
  pub Served-from :
      {q : ℕ} {rows : List ResultRow} {c d c' : Conn M}
      → results api q d ≡ results api q c
      → d.store.finished ≡ c.store.finished
      → Served q rows d c'
      → Served q rows c c'
  Served-from {q = q} {rows = rows} r t v = record {
    idle = v.idle;
    free = v.free;
    all_rows = v.all_rows ∙ ap (λ l. l ++ rows) r;
    told = v.told ∙ ap (λ l. l ++ q ∷ []) t;
  }

  pub ended-Served :
      (q : ℕ) (res : ResultSet) (c : Conn M) → c.in_process ≡ some q → Served q [] c (ended q res c)
  unfolding Session.set_result_rows
  ended-Served q res c p =
      Served-from (modified-results q _ c.store) (finished-modify q _ c.store) (
        subst (λ d. Served q [] counted (goto State.connection_idle d))
          (sym (done_current_query-told _ _ q counted p)) (told_of-Served _ _ q counted))
    where
      counted : Conn M
      counted = record c {
        store = Store.modify q (Session.set_result_rows (api.num_rows res c.mysql)) c.store;
        mysql = api.free_result res c.mysql;
      }

  -- One row more in front.
  pub row-Served :
      (q : ℕ) (res : ResultSet) (r : Row) (rows : List Row) (c c' : Conn M)
      → Served q
          (map (read_row 0 (left_fields api res (c.store.sessions q)).num_fields) rows)
          (after_row api q res r c)
          c'
      → Served q (map (read_row 0 res.num_fields) (r ∷ rows)) c c'
  row-Served q res r rows c c' v = record {
    idle = v.idle;
    free = v.free;
    all_rows =
        v.all_rows
        ∙ rw (left_fields-num_fields api res (c.store.sessions q))
            (ap (λ l. l ++ map (read_row 0 res.num_fields) rows) (after_row-results api q res r c))
        ∙ append_assoc (results api q c) (read_row 0 res.num_fields r ∷ [])
            (map (read_row 0 res.num_fields) rows);
    told = v.told ∙ ap (λ l. l ++ q ∷ []) (finished-modify q _ c.store);
  }

  -- Two turns for each row and two for the end, and `n` more.
  abbrev pub turns : List Row → ℕ → ℕ
  turns [] n = suc (suc n)
  turns (r ∷ rows) n = suc (suc (turns rows n))

  -- Where the library has a number of rows at hand and then the end, a connection that
  -- starts to fetch them for a query takes two turns for each row and two for the end, and
  -- is idle then. The query is told once, and its results api are those that it had, followed by
  -- the cells of each row in order.
  handle_state-rows :
      (rows : List Row) (n e q : ℕ) (res : ResultSet) (c : Conn M)
      → Fetching api q res c
      → Gives api rows c.mysql
      → (c' : Conn M) × (handle_state api (turns rows n) e c ≡ handle_state api n e c')
        × Served q (map (read_row 0 res.num_fields) rows) c c'
  handle_state-rows [] n e q res c f g =
      let (now, out) = g res c.result_row in
      let d = after_fetch api res c in
      (
        ended q res d,
        one_turn api (suc n) e c d (fetch_turn api e q res c f now)
            ∙ one_turn api n e d _ (end_turn e q res d refl f.current f.fetched out),
        Served-from refl refl (ended-Served q res d f.current),
      )
  handle_state-rows (r ∷ rows) n e q res c f g =
      let (now, out, rest) = g res c.result_row in
      let d = after_fetch api res c in
      let (c', run, v) =
        handle_state-rows rows n e q (left_fields api res (d.store.sessions q))
          (after_row api q res r d) (after_row-Fetching api q res r d f.current) (rest) in
      (
        c',
        one_turn api (suc (turns rows n)) e c d (fetch_turn api e q res c f now)
            ∙ one_turn api (turns rows n) e d _
                (row_turn api e q res r d refl f.current f.fetched out)
            ∙ run,
        Served-from refl refl (row-Served q res r rows d c' v),
      )
