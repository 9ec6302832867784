-- ===== src/Mysql/Refine/Turns.antt =====
-- Every turn of HandleState (mysql_async_con.cc), handler by handler, as a move of the abstract
-- server.
use ltapp.Base.{
  ℕ, ◌≡◌, refl, inl, inr, Bool, false, Option, none, some, List, [], ◌∷◌, arith, str_eq,
  Option-cases, String,
}
use ltapp.Base.Int.{ℤ}
use ltapp.Mysql.Store
use ltapp.Mysql.Store.{Store}
use ltapp.Mysql.Api.{MysqlApi, ResultSet, Row}
use ltapp.Outcome.{ok, Ensures, holds, stops, Ensures-if, Ensures-check, Ensures-bind, Ensures-ok}
use ltapp.Mysql.Conn.{
  State, Conn, goto, wait_mysql_status, arm_timer, go_next_state, done_current_query, fail_current,
}
use ltapp.Mysql.Conn.Step.{
  handle_connect_start, handle_connect_wait, handle_connect_done, handle_close_start,
  handle_close_wait, handle_close_done, take_query, handle_state_idle, handle_select_db_start,
  handle_select_db_wait, handle_select_db_done, handle_query_start, handle_query_wait,
  handle_result_ready, handle_fetch_start, handle_fetch_wait, end_of_rows, store_row,
  handle_row_ready,
}
use ltapp.Mysql.Conn.Entry.{dispatch, step}
use ltapp.Mysql.Refine.{
  view, Serve, keep, take, finish, finished-modify, finished-complete, Serves, clean_up-Serve,
}

module _ {M : Type 0} (api : MysqlApi M) where
  wait-Serve :
      (s : ℕ) (c : Conn M) → Ensures (λ c'. Serve (view c) (view c')) (wait_mysql_status api s c)
  unfolding wait_mysql_status arm_timer
  wait-Serve s c = Ensures-if _ (Ensures-check (λ t e. holds (keep refl))) (holds (keep refl))

  next-Serves : (s : ℕ) (w n : State) (c : Conn M) → Serves c (go_next_state api s w n c)
  unfolding go_next_state goto
  next-Serves s w n c =
      Ensures-if _ (holds (keep refl)) (Ensures-bind (wait-Serve s (goto w c)) (λ c' v. holds v))

  done-Serve :
      (code : ℤ) (m : Option String) (c : Conn M)
      → Serve (view c) (view (done_current_query api code m c))
  unfolding done_current_query
  done-Serve code m c = elim (Option-cases c.in_process) [
    | inl e ↦ rw (e, done_current_query) (keep (ground arith))
    | inr (q, e) ↦
        rw (e, done_current_query) (finish q refl (rw (finished-complete, finished-modify) refl))
  ]

  fail-Serves : (code : ℤ) (c : Conn M) → Serves c (fail_current api code c)
  unfolding fail_current goto
  fail-Serves code c = holds (done-Serve code (some (api.error c.mysql)) c)

  connect_done-Serves : (c : Conn M) → Serves c (handle_connect_done api c)
  unfolding handle_connect_done
  connect_done-Serves c = Ensures-if c.mysql_ret (holds (keep refl)) (holds (keep refl))

  close_done-Serves : (c : Conn M) → Serves c (handle_close_done api c)
  unfolding handle_close_done
  close_done-Serves c = Ensures-bind (clean_up-Serve (record c { ready = false })) (λ c' v. holds v)

  take-Serves :
      (q : ℕ) (rest : List ℕ) (c : Conn M)
      → Ensures
          (λ r. Serve (record (view c) { waiting = q ∷ rest }) (view r.0))
          (take_query api q rest c)
  unfolding take_query
  take-Serves q rest c = elim (Option-cases c.in_process) [
    | inl n ↦ rw n (holds (take q refl refl refl))
    | inr (p, n) ↦ rw n stops
  ]

  idle-Serves : (c : Conn M) → Serves c (handle_state_idle api c)
  unfolding handle_state_idle goto
  idle-Serves c = go c.query_list refl
    where
      go : (l : List ℕ) → c.query_list ≡ l → Serves c (handle_state_idle api c)
      go [] e =
          rw (e, handle_state_idle)
            (Ensures-if c.schedule_close (holds (keep (ground arith)))
              (holds (keep (ground arith))))
      go (q ∷ rest) e = rw (e, handle_state_idle) (take-Serves q rest c)

  select_start-Serves : (q : ℕ) (c : Conn M) → Serves c (handle_select_db_start api q c)
  unfolding handle_select_db_start
  select_start-Serves q c = Ensures-if _ (next-Serves _ _ _ _) (fail-Serves _ _)

  select_wait-Serves : (e : ℕ) (c : Conn M) → Serves c (handle_select_db_wait api e c)
  unfolding handle_select_db_wait
  select_wait-Serves e c = Ensures-if _ (next-Serves _ _ _ _) (fail-Serves _ _)

  select_done-Serves : (q : ℕ) (c : Conn M) → Serves c (handle_select_db_done api q c)
  unfolding handle_select_db_done goto
  select_done-Serves q c = Ensures-if _ (holds (done-Serve _ _ _)) (holds (keep refl))

  query_start-Serves : (q : ℕ) (c : Conn M) → Serves c (handle_query_start api q c)
  unfolding handle_query_start goto
  query_start-Serves q c =
      Ensures-if (str_eq (c.store.sessions q).query "") (holds (done-Serve _ _ _))
        (Ensures-if _ (next-Serves _ _ _ _) (fail-Serves _ _))

  query_wait-Serves : (e : ℕ) (c : Conn M) → Serves c (handle_query_wait api e c)
  unfolding handle_query_wait
  query_wait-Serves e c = Ensures-if _ (next-Serves _ _ _ _) (fail-Serves _ _)

  result_ready-Serves : (c : Conn M) → Serves c (handle_result_ready api c)
  unfolding handle_result_ready
  result_ready-Serves c = go (api.use_result c.mysql).0 refl
    where
      go :
          (o : Option ResultSet)
          → (api.use_result c.mysql).0 ≡ o
          → Serves c (handle_result_ready api c)
      go none e = rw (e, handle_result_ready) (fail-Serves _ _)
      go (some r) e = rw (e, handle_result_ready) (next-Serves _ _ _ _)

  end_of_rows-Serves : (q : ℕ) (res : ResultSet) (c : Conn M) → Serves c (end_of_rows api q res c)
  unfolding end_of_rows goto Store.modify
  end_of_rows-Serves q res c = holds (done-Serve _ _ (record c { store = _; mysql = _ }))

  store_row-Serves :
      (q : ℕ) (res : ResultSet) (row : Row) (c : Conn M) → Serves c (store_row api q res row c)
  unfolding store_row Store.modify
  store_row-Serves q res row c = next-Serves _ _ _ _

  row_ready-Serves :
      (q : ℕ) (res : ResultSet) (c : Conn M) → Serves c (handle_row_ready api q res c)
  unfolding handle_row_ready
  row_ready-Serves q res c = elim (Option-cases c.result_row) [
    | inl e ↦ rw (e, handle_row_ready) (end_of_rows-Serves q res c)
    | inr (row, e) ↦ rw (e, handle_row_ready) (store_row-Serves q res row c)
  ]

  dispatch-Serves : (e : ℕ) (s : State) (c : Conn M) → Serves c (dispatch api e s c)
  unfolding dispatch handle_connect_start handle_connect_wait handle_close_start handle_close_wait
      handle_fetch_start handle_fetch_wait
  dispatch-Serves e State.connect_start c = next-Serves _ _ _ _
  dispatch-Serves e State.connect_wait c = next-Serves _ _ _ _
  dispatch-Serves e State.connect_done c = connect_done-Serves c
  dispatch-Serves e State.close_start c = next-Serves _ _ _ _
  dispatch-Serves e State.close_wait c = next-Serves _ _ _ _
  dispatch-Serves e State.close_done c = close_done-Serves c
  dispatch-Serves e State.connection_idle c = idle-Serves c
  dispatch-Serves e State.select_db_start c = Ensures-check (λ q _. select_start-Serves q c)
  dispatch-Serves e State.select_db_wait c = Ensures-check (λ q _. select_wait-Serves e c)
  dispatch-Serves e State.select_db_done c = Ensures-check (λ q _. select_done-Serves q c)
  dispatch-Serves e State.query_start c = Ensures-check (λ q _. query_start-Serves q c)
  dispatch-Serves e State.query_wait c = Ensures-check (λ q _. query_wait-Serves e c)
  dispatch-Serves e State.query_result_ready c = Ensures-check (λ q _. result_ready-Serves c)
  dispatch-Serves e State.fetch_row_start c = Ensures-check (λ r _. next-Serves _ _ _ _)
  dispatch-Serves e State.fetch_row_wait c = Ensures-check (λ r _. next-Serves _ _ _ _)
  dispatch-Serves e State.fetch_row_result_ready c =
      Ensures-check (λ q _. Ensures-check (λ r _. row_ready-Serves q r c))
  dispatch-Serves e State.state_none c = stops
  dispatch-Serves e State.connect_init c = stops

  -- Every turn of HandleState that does not stop the process is a move of the abstract
  -- server: nothing is done, the front of the waiting queries is taken while none is in
  -- process, the one in process is done, or all that are left are done at once in their
  -- order.
  pub step-Serve :
      (e : ℕ) (c c' : Conn M) (more : Bool)
      → step api e c ≡ ok (c', more)
      → Serve (view c) (view c')
  unfolding step
  step-Serve e c c' more h = Ensures-ok (dispatch-Serves e c.current_state c) h
