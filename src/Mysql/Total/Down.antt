-- ===== src/Mysql/Total/Down.antt =====
-- The handlers of mysql_async_con.cc, one by one: a turn after which the loop goes on has a smaller
-- measure.
use ltapp.Base.{ℕ, ◌≡◌, refl, ap, inl, false, Option, none, some, List, [], ◌∷◌, arith, length}
use ltapp.Outcome.{Ensures, holds, stops, Ensures-if, Ensures-check, Ensures-bind}
use ltapp.Mysql.Api.{MysqlApi, ResultSet}
use ltapp.Mysql.Conn.{State, Conn, goto, clean_up}
use ltapp.Mysql.Conn.Step.{
  handle_connect_start, handle_connect_wait, handle_connect_done, handle_close_start,
  handle_close_wait, handle_close_done, take_query, handle_state_idle, handle_select_db_start,
  handle_select_db_wait, handle_select_db_done, handle_query_start, handle_query_wait,
  handle_result_ready, handle_fetch_wait,
}
use ltapp.Mysql.Conn.Entry.{dispatch, step}
use ltapp.Mysql.Total.{Measure, measure, Down, GivesRowsOnce, any, next-Down, idle-Down, fail-Down}
use ltapp.Mysql.Total.Fetching.{fetch_start-Down, fetched-Down, row_ready-Down}

module _ {M : Type 0} (rows_left : M → ℕ) (api : MysqlApi M) where
  connect_done-Down :
      (c : Conn M)
      → Ensures
          (Down rows_left (measure rows_left State.connect_done c))
          (handle_connect_done api c)
  unfolding handle_connect_done
  connect_done-Down c = Ensures-if _ (holds (λ h. omega arith)) (holds (λ h. omega arith))

  close_done-Down :
      (b : Measure) (c : Conn M) → Ensures (Down rows_left b) (handle_close_done api c)
  unfolding handle_close_done
  close_done-Down b c =
      Ensures-bind (any rows_left api (clean_up (record c { ready = false })))
        (λ c' _. holds (λ h. cc))

  idle_state-Down :
      (c : Conn M)
      → Ensures
          (Down rows_left (measure rows_left State.connection_idle c))
          (handle_state_idle api c)
  unfolding handle_state_idle goto take_query
  idle_state-Down c = go c.query_list refl
    where
      go :
          (l : List ℕ)
          → c.query_list ≡ l
          → Ensures
              (Down rows_left (measure rows_left State.connection_idle c))
              (handle_state_idle api c)
      go [] e =
          rw (e, handle_state_idle)
            (Ensures-if _ (holds (λ h. ground (arith, ap length e))) (holds (λ h. cc)))
      go (q ∷ rest) e =
          rw (e, handle_state_idle) (Ensures-if _ stops (holds (λ h. inl (omega arith))))

  select_start-Down :
      (q : ℕ) (c : Conn M)
      → Ensures
          (Down rows_left (measure rows_left State.select_db_start c))
          (handle_select_db_start api q c)
  unfolding handle_select_db_start
  select_start-Down q c =
      Ensures-if _ (next-Down rows_left api _ _ _ _ _ (omega arith) (omega arith))
        (fail-Down rows_left api _ _ _ (omega arith) (omega arith))

  select_wait-Down :
      (e : ℕ) (c : Conn M)
      → Ensures
          (Down rows_left (measure rows_left State.select_db_wait c))
          (handle_select_db_wait api e c)
  unfolding handle_select_db_wait
  select_wait-Down e c =
      Ensures-if _ (next-Down rows_left api _ _ _ _ _ (omega arith) (omega arith))
        (fail-Down rows_left api _ _ _ (omega arith) (omega arith))

  select_done-Down :
      (q : ℕ) (c : Conn M)
      → Ensures
          (Down rows_left (measure rows_left State.select_db_done c))
          (handle_select_db_done api q c)
  unfolding handle_select_db_done goto
  select_done-Down q c =
      Ensures-if _
        (holds (
          idle-Down rows_left api _ _ _ (record c { last_selected_db = _ }) (omega arith)
            (omega arith)))
        (holds (λ h. omega arith))

  query_start-Down :
      (q : ℕ) (c : Conn M)
      → Ensures
          (Down rows_left (measure rows_left State.query_start c))
          (handle_query_start api q c)
  unfolding handle_query_start goto
  query_start-Down q c =
      Ensures-if _ (holds (idle-Down rows_left api _ _ _ _ (omega arith) (omega arith))) (
        Ensures-if _ (next-Down rows_left api _ _ _ _ _ (omega arith) (omega arith))
          (fail-Down rows_left api _ _ _ (omega arith) (omega arith)))

  query_wait-Down :
      (e : ℕ) (c : Conn M)
      → Ensures (Down rows_left (measure rows_left State.query_wait c)) (handle_query_wait api e c)
  unfolding handle_query_wait
  query_wait-Down e c =
      Ensures-if _ (next-Down rows_left api _ _ _ _ _ (omega arith) (omega arith))
        (fail-Down rows_left api _ _ _ (omega arith) (omega arith))

  result_ready-Down :
      (c : Conn M)
      → Ensures
          (Down rows_left (measure rows_left State.query_result_ready c))
          (handle_result_ready api c)
  unfolding handle_result_ready
  result_ready-Down c = go (api.use_result c.mysql).0 refl
    where
      go :
          (o : Option ResultSet)
          → (api.use_result c.mysql).0 ≡ o
          → Ensures
              (Down rows_left (measure rows_left State.query_result_ready c))
              (handle_result_ready api c)
      go none e =
          rw (e, handle_result_ready) (fail-Down rows_left api _ _ _ (omega arith) (omega arith))
      go (some r) e =
          rw (e, handle_result_ready)
            (next-Down rows_left api _ _ _ _ _ (omega arith) (omega arith))

  dispatch-Down :
      GivesRowsOnce rows_left api
      → (e : ℕ) (s : State) (c : Conn M)
      → Ensures (Down rows_left (measure rows_left s c)) (dispatch api e s c)
  unfolding dispatch handle_connect_start handle_connect_wait handle_close_start handle_close_wait
      handle_fetch_wait
  dispatch-Down once e State.connect_start c =
      next-Down rows_left api _ _ _ _ _ (omega arith) (omega arith)
  dispatch-Down once e State.connect_wait c =
      next-Down rows_left api _ _ _ _ _ (omega arith) (omega arith)
  dispatch-Down once e State.connect_done c = connect_done-Down c
  dispatch-Down once e State.close_start c =
      next-Down rows_left api _ _ _ _ _ (omega arith) (omega arith)
  dispatch-Down once e State.close_wait c =
      next-Down rows_left api _ _ _ _ _ (omega arith) (omega arith)
  dispatch-Down once e State.close_done c = close_done-Down _ c
  dispatch-Down once e State.connection_idle c = idle_state-Down c
  dispatch-Down once e State.select_db_start c = Ensures-check (λ q _. select_start-Down q c)
  dispatch-Down once e State.select_db_wait c = Ensures-check (λ q _. select_wait-Down e c)
  dispatch-Down once e State.select_db_done c = Ensures-check (λ q _. select_done-Down q c)
  dispatch-Down once e State.query_start c = Ensures-check (λ q _. query_start-Down q c)
  dispatch-Down once e State.query_wait c = Ensures-check (λ q _. query_wait-Down e c)
  dispatch-Down once e State.query_result_ready c = Ensures-check (λ q _. result_ready-Down c)
  dispatch-Down once e State.fetch_row_start c =
      Ensures-check (λ r _. fetch_start-Down rows_left api once r c)
  dispatch-Down once e State.fetch_row_wait c =
      Ensures-check (λ r _. fetched-Down rows_left api _ c)
  dispatch-Down once e State.fetch_row_result_ready c =
      Ensures-check (λ q _. Ensures-check (λ r _. row_ready-Down rows_left api q r c))
  dispatch-Down once e State.state_none c = stops
  dispatch-Down once e State.connect_init c = stops

  pub step-Down :
      GivesRowsOnce rows_left api
      → (e : ℕ) (c : Conn M)
      → Ensures (Down rows_left (measure rows_left c.current_state c)) (step api e c)
  unfolding step
  step-Down once e c = dispatch-Down once e c.current_state c
