-- ===== src/Mysql/Conn/Step.antt =====
-- The handlers of mysql_async_con.cc: one turn of the loop of HandleState in each state.
-- `true` beside the new state is `st_continue`.
use ltapp.Base.{
  ℕ, zero, suc, ◌+◌, String, Bool, true, false, not, ◌&&◌, Option, none, some, List, [], ◌∷◌, ◌++◌,
  if◌then◌else◌, is_some, str_eq,
}
use ltapp.Base.Int.{pos, negsuc, is_zero}
use ltapp.Mysql.Session
use ltapp.Mysql.Session.{QuerySession, ResultRow}
use ltapp.Mysql.Store
use ltapp.Mysql.Api.{ResultSet, Row, MysqlApi}
use ltapp.Outcome.{Outcome, ok, abort, ◌>>=◌}
use ltapp.Mysql.Conn.{
  State, Conn, on_connect_ready, on_connection_closed, goto, clean_up, go_next_state,
  done_current_query, fail_current,
}

abbrev pub cell : Option String → String
cell none = "NULL"
cell (some v) = v

-- The loop over result_row_[i], from `i` for the fields that are left.
unfoldable pub read_row : ℕ → ℕ → Row → ResultRow
read_row i zero row = []
read_row i (suc n) row = cell (row i) ∷ read_row (i + 1) n row

-- ParseResultDesc: mysql_fetch_field until it gives NULL.
unfoldable pub parse_result_desc : List String → QuerySession → QuerySession
parse_result_desc [] s = s
parse_result_desc (name ∷ names) s = parse_result_desc names (Session.push_header name s)

abbrev pub is_empty {ℓ} : {A : Type ℓ} → List A → Bool
is_empty [] = true
is_empty (_ ∷ _) = false

module _ {M : Type 0} (api : MysqlApi M) where
  -- HandleStateConnect
  unfoldable pub handle_connect_start : Conn M → Outcome (Conn M × Bool)
  handle_connect_start c =
      let r = api.real_connect_start c.option c.mysql_ret c.mysql in
      go_next_state api r.status State.connect_wait State.connect_done
        (record c { mysql_ret = r.out; mysql = r.handle })

  unfoldable pub handle_connect_wait : ℕ → Conn M → Outcome (Conn M × Bool)
  handle_connect_wait in_event c =
      let r = api.real_connect_cont in_event c.mysql_ret c.mysql in
      go_next_state api r.status State.connect_wait State.connect_done
        (record c { mysql_ret = r.out; mysql = r.handle })

  unfoldable pub handle_connect_done : Conn M → Outcome (Conn M × Bool)
  handle_connect_done c =
      if c.mysql_ret
      then ok (
        record c {
          ready = true;
          current_state = State.connection_idle;
          last_selected_db = c.option.dbname;
          notices = if c.has_client then c.notices ++ on_connect_ready ∷ [] else c.notices;
        },
        true,
      )
      else ok (record c { ready = false; current_state = State.close_start }, true)

  unfoldable pub handle_close_start : Conn M → Outcome (Conn M × Bool)
  handle_close_start c =
      let (status, m) = api.close_start c.mysql in
      go_next_state api status State.close_wait State.close_done (record c { mysql = m })

  unfoldable pub handle_close_wait : ℕ → Conn M → Outcome (Conn M × Bool)
  handle_close_wait in_event c =
      let (status, m) = api.close_cont in_event c.mysql in
      go_next_state api status State.close_wait State.close_done (record c { mysql = m })

  unfoldable pub handle_close_done : Conn M → Outcome (Conn M × Bool)
  handle_close_done c = do
    c' ← clean_up (record c { ready = false })
    ok (
      record c' {
        notices = if c'.has_client then c'.notices ++ on_connection_closed ∷ [] else c'.notices;
        current_state = State.connect_done;
      },
      false,
    )

  -- HandleStateIDLE, on the front of query_list_. CHECK(!in_process_) comes first.
  unfoldable pub take_query : ℕ → List ℕ → Conn M → Outcome (Conn M × Bool)
  take_query q rest c =
      if is_some c.in_process
      then abort
      else let db = (c.store.sessions q).db_name in
        ok (
          record c {
            in_process = some q;
            query_list = rest;
            current_state =
                if not (str_eq db "") && not (str_eq db c.last_selected_db)
                then State.select_db_start
                else State.query_start;
          },
          true,
        )

  unfoldable pub handle_state_idle : Conn M → Outcome (Conn M × Bool)
  handle_state_idle c = elim c.query_list [
    | [] ↦ if c.schedule_close then ok (goto State.close_start c, true) else ok (c, false)
    | q ∷ rest ↦ take_query q rest c
  ]

  -- HandleStateSelectDB, on the query in process.
  unfoldable pub handle_select_db_start : ℕ → Conn M → Outcome (Conn M × Bool)
  handle_select_db_start q c =
      let r = api.select_db_start (c.store.sessions q).db_name (pos 0) c.mysql in
      let c' = record c { mysql = r.handle } in
      if is_zero r.out
      then go_next_state api r.status State.select_db_wait State.select_db_done c'
      else fail_current api r.out c'

  unfoldable pub handle_select_db_wait : ℕ → Conn M → Outcome (Conn M × Bool)
  handle_select_db_wait in_event c =
      let r = api.select_db_cont in_event (pos 0) c.mysql in
      let c' = record c { mysql = r.handle } in
      if is_zero r.out
      then go_next_state api r.status State.select_db_wait State.select_db_done c'
      else fail_current api r.out c'

  unfoldable pub handle_select_db_done : ℕ → Conn M → Outcome (Conn M × Bool)
  handle_select_db_done q c =
      let c' = record c { last_selected_db = (c.store.sessions q).db_name } in
      if str_eq (c.store.sessions q).query ""
      then ok (
        goto State.connection_idle (done_current_query api (pos 0) (some "db change success") c'),
        true,
      )
      else ok (goto State.query_start c', true)

  -- The query states of HandleState.
  unfoldable pub handle_query_start : ℕ → Conn M → Outcome (Conn M × Bool)
  handle_query_start q c =
      if str_eq (c.store.sessions q).query ""
      then ok (
        goto State.connection_idle (done_current_query api (negsuc 9998) (some "empty query") c),
        true,
      )
      else let r = api.real_query_start (c.store.sessions q).query (pos 0) c.mysql in
        let c' = record c { mysql = r.handle } in
        if is_zero r.out
        then go_next_state api r.status State.query_wait State.query_result_ready c'
        else fail_current api r.out c'

  -- The test reads the member err_no_, not the local err_no that the call writes.
  unfoldable pub handle_query_wait : ℕ → Conn M → Outcome (Conn M × Bool)
  handle_query_wait in_event c =
      let r = api.real_query_cont in_event (pos 0) c.mysql in
      let c' = record c { mysql = r.handle } in
      if is_zero c'.err_no
      then go_next_state api r.status State.query_wait State.query_result_ready c'
      else fail_current api r.out c'

  unfoldable pub handle_result_ready : Conn M → Outcome (Conn M × Bool)
  handle_result_ready c =
      let (result, m) = api.use_result c.mysql in
      let c' = record c { result = result; mysql = m } in
      elim result [
        | none ↦ fail_current api (api.errno m) c'
        | some _ ↦ go_next_state api 0 State.fetch_row_start State.fetch_row_start c'
      ]

  unfoldable pub handle_fetch_start : ResultSet → Conn M → Outcome (Conn M × Bool)
  handle_fetch_start res c =
      let r = api.fetch_row_start res c.result_row c.mysql in
      go_next_state api r.status State.fetch_row_wait State.fetch_row_result_ready
        (record c { result_row = r.out; mysql = r.handle })

  unfoldable pub handle_fetch_wait : ℕ → ResultSet → Conn M → Outcome (Conn M × Bool)
  handle_fetch_wait in_event res c =
      let r = api.fetch_row_cont res in_event c.result_row c.mysql in
      go_next_state api r.status State.fetch_row_wait State.fetch_row_result_ready
        (record c { result_row = r.out; mysql = r.handle })

  -- No more rows, or an error: the row count is set, the result freed, and the query done.
  unfoldable pub end_of_rows : ℕ → ResultSet → Conn M → Outcome (Conn M × Bool)
  end_of_rows q res c =
      let code = api.errno c.mysql in
      let message = if is_zero code then none else some (api.error c.mysql) in
      let counted = Store.modify q (Session.set_result_rows (api.num_rows res c.mysql)) c.store in
      let c' = record c { store = counted; mysql = api.free_result res c.mysql } in
      ok (goto State.connection_idle (done_current_query api code message c'), true)

  -- What one row adds to its session: the headers, when there are none yet, and the cells.
  unfoldable pub add_row : ResultSet → Row → QuerySession → QuerySession
  unfolding parse_result_desc read_row Session.pending_row
  add_row res row s =
      Session.pending_row (read_row 0 res.num_fields row)
        (if is_empty s.column_names then parse_result_desc res.fields s else s)

  -- The fields that mysql_fetch_field has still to give after that.
  unfoldable pub left_fields : ResultSet → QuerySession → ResultSet
  left_fields res s = if is_empty s.column_names then record res { fields = [] } else res

  unfoldable pub store_row : ℕ → ResultSet → Row → Conn M → Outcome (Conn M × Bool)
  unfolding add_row left_fields
  store_row q res row c =
      go_next_state api 0 State.fetch_row_start State.fetch_row_start (record c {
        store = Store.modify q (add_row res row) c.store;
        result = some (left_fields res (c.store.sessions q));
      })

  unfoldable pub handle_row_ready : ℕ → ResultSet → Conn M → Outcome (Conn M × Bool)
  handle_row_ready q res c = elim c.result_row [
    | none ↦ end_of_rows q res c
    | some row ↦ store_row q res row c
  ]
