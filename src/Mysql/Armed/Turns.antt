-- ===== src/Mysql/Armed/Turns.antt =====
-- Every turn of HandleState (mysql_async_con.cc) that stops to wait is armed as it was asked to be.
use ltapp.Base.{
  ℕ, ◌≡◌, ◌≢◌, refl, inl, inr, Bool, true, false, Option, none, some, List, [], ◌∷◌, Option-cases,
}
use ltapp.Base.Int.{ℤ}
use ltapp.Outcome.{
  Outcome, ok, check_some, Ensures, holds, stops, Ensures-if, Ensures-check, Ensures-bind,
  Ensures-ok,
}
use ltapp.Mysql.Api.{MysqlApi, ResultSet}
use ltapp.Mysql.Conn.{State, Conn, goto, fail_current}
use ltapp.Mysql.Conn.Step.{
  handle_connect_start, handle_connect_wait, handle_connect_done, handle_close_start,
  handle_close_wait, handle_close_done, take_query, handle_state_idle, handle_select_db_start,
  handle_select_db_wait, handle_select_db_done, handle_query_start, handle_query_wait,
  handle_result_ready, handle_fetch_start, handle_fetch_wait, end_of_rows, store_row,
  handle_row_ready,
}
use ltapp.Mysql.Conn.Entry.{dispatch, step}
use ltapp.Mysql.Refine.{clean_up-Serve}
use ltapp.Mysql.Safety.{is_waiting}
use ltapp.Mysql.Armed.{Armed, asked, asked_for_query, Waits, next-Waits, goes_on}

module _ {M : Type 0} (api : MysqlApi M) where
  done-Waits : (st : ℕ) (s : State) (c : Conn M) → Ensures (Waits api st) (ok (goto s c, true))
  done-Waits st s c = goes_on api st (goto s c)

  fail-Waits : (st : ℕ) (code : ℤ) (c : Conn M) → Ensures (Waits api st) (fail_current api code c)
  unfolding fail_current
  fail-Waits st code c = goes_on api st _

  connect_done-Waits : (c : Conn M) → Ensures (Waits api 0) (handle_connect_done api c)
  unfolding handle_connect_done
  connect_done-Waits c = Ensures-if c.mysql_ret (goes_on api 0 _) (goes_on api 0 _)

  close_done-Waits : (c : Conn M) → Ensures (Waits api 0) (handle_close_done api c)
  unfolding handle_close_done
  close_done-Waits c =
      Ensures-bind (clean_up-Serve (record c { ready = false })) (λ c' _. holds (λ h i. cc))

  idle-Waits :
      (c : Conn M)
      → is_waiting c.current_state ≡ false
      → Ensures (Waits api 0) (handle_state_idle api c)
  unfolding handle_state_idle take_query
  idle-Waits c n = go c.query_list refl
    where
      go : (l : List ℕ) → c.query_list ≡ l → Ensures (Waits api 0) (handle_state_idle api c)
      go [] e = rw (e, handle_state_idle) (Ensures-if _ (goes_on api 0 _) (holds (λ h i. cc)))
      go (q ∷ rest) e = rw (e, handle_state_idle) (Ensures-if _ stops (goes_on api 0 _))

  -- The query states, on query `q`.
  select_start-Waits :
      (q : ℕ) (c : Conn M)
      → Ensures
          (Waits api (asked_for_query api 0 State.select_db_start c q))
          (handle_select_db_start api q c)
  unfolding handle_select_db_start
  select_start-Waits q c = Ensures-if _ (next-Waits api _ _ _ _) (fail-Waits _ _ _)

  select_wait-Waits :
      (e q : ℕ) (c : Conn M)
      → Ensures
          (Waits api (asked_for_query api e State.select_db_wait c q))
          (handle_select_db_wait api e c)
  unfolding handle_select_db_wait
  select_wait-Waits e q c = Ensures-if _ (next-Waits api _ _ _ _) (fail-Waits _ _ _)

  select_done-Waits : (q : ℕ) (c : Conn M) → Ensures (Waits api 0) (handle_select_db_done api q c)
  unfolding handle_select_db_done
  select_done-Waits q c = Ensures-if _ (goes_on api 0 _) (goes_on api 0 _)

  query_start-Waits :
      (q : ℕ) (c : Conn M)
      → Ensures
          (Waits api (asked_for_query api 0 State.query_start c q))
          (handle_query_start api q c)
  unfolding handle_query_start
  query_start-Waits q c =
      Ensures-if _ (goes_on api _ _) (Ensures-if _ (next-Waits api _ _ _ _) (fail-Waits _ _ _))

  query_wait-Waits :
      (e q : ℕ) (c : Conn M)
      → Ensures (Waits api (asked_for_query api e State.query_wait c q)) (handle_query_wait api e c)
  unfolding handle_query_wait
  query_wait-Waits e q c = Ensures-if _ (next-Waits api _ _ _ _) (fail-Waits _ _ _)

  result_ready-Waits : (c : Conn M) → Ensures (Waits api 0) (handle_result_ready api c)
  unfolding handle_result_ready
  result_ready-Waits c = go (api.use_result c.mysql).0 refl
    where
      go :
          (o : Option ResultSet)
          → (api.use_result c.mysql).0 ≡ o
          → Ensures (Waits api 0) (handle_result_ready api c)
      go none e = rw (e, handle_result_ready) (fail-Waits _ _ _)
      go (some r) e = rw (e, handle_result_ready) (next-Waits api _ _ _ _)

  row_ready-Waits :
      (q : ℕ) (res : ResultSet) (c : Conn M) → Ensures (Waits api 0) (handle_row_ready api q res c)
  unfolding handle_row_ready end_of_rows store_row
  row_ready-Waits q res c = elim (Option-cases c.result_row) [
    | inl e ↦ rw (e, handle_row_ready) (goes_on api 0 _)
    | inr (row, e) ↦ rw (e, handle_row_ready) (next-Waits api _ _ _ _)
  ]

  -- A turn on the query in process, whose call depends on it.
  on_query :
      (f : ℕ → ℕ) {k : ℕ → Outcome (Conn M × Bool)} (o : Option ℕ)
      → ((q : ℕ) → Ensures (Waits api (f q)) (k q))
      → Ensures (Waits api (elim o [ none ↦ 0 | some q ↦ f q ])) (check_some o k)
  unfolding check_some
  on_query f none h = stops
  on_query f (some q) h = h q

  on_rows :
      (f : ResultSet → ℕ) {k : ResultSet → Outcome (Conn M × Bool)} (o : Option ResultSet)
      → ((r : ResultSet) → Ensures (Waits api (f r)) (k r))
      → Ensures (Waits api (elim o [ none ↦ 0 | some r ↦ f r ])) (check_some o k)
  unfolding check_some
  on_rows f none h = stops
  on_rows f (some r) h = h r

  dispatch-Waits :
      (e : ℕ) (s : State) (c : Conn M)
      → c.current_state ≡ s
      → Ensures (Waits api (asked api e s c)) (dispatch api e s c)
  unfolding dispatch handle_connect_start handle_connect_wait handle_close_start handle_close_wait
      handle_fetch_start handle_fetch_wait
  dispatch-Waits e State.connect_start c h = next-Waits api _ _ _ _
  dispatch-Waits e State.connect_wait c h = next-Waits api _ _ _ _
  dispatch-Waits e State.connect_done c h = connect_done-Waits c
  dispatch-Waits e State.close_start c h = next-Waits api _ _ _ _
  dispatch-Waits e State.close_wait c h = next-Waits api _ _ _ _
  dispatch-Waits e State.close_done c h = close_done-Waits c
  dispatch-Waits e State.connection_idle c h = idle-Waits c (rw h refl)
  dispatch-Waits e State.select_db_start c h = on_query _ c.in_process (λ q. select_start-Waits q c)
  dispatch-Waits e State.select_db_wait c h = on_query _ c.in_process (λ q. select_wait-Waits e q c)
  dispatch-Waits e State.select_db_done c h = Ensures-check (λ q _. select_done-Waits q c)
  dispatch-Waits e State.query_start c h = on_query _ c.in_process (λ q. query_start-Waits q c)
  dispatch-Waits e State.query_wait c h = on_query _ c.in_process (λ q. query_wait-Waits e q c)
  dispatch-Waits e State.query_result_ready c h = Ensures-check (λ q _. result_ready-Waits c)
  dispatch-Waits e State.fetch_row_start c h = on_rows _ c.result (λ r. next-Waits api _ _ _ _)
  dispatch-Waits e State.fetch_row_wait c h = on_rows _ c.result (λ r. next-Waits api _ _ _ _)
  dispatch-Waits e State.fetch_row_result_ready c h =
      Ensures-check (λ q _. Ensures-check (λ r _. row_ready-Waits q r c))
  dispatch-Waits e State.state_none c h = stops
  dispatch-Waits e State.connect_init c h = stops

  -- A turn that stops in a state that waits has made a call of the library whose status
  -- asked to wait. The connection's event is then enabled for reading and for writing as
  -- that status says, and, if it asks for a timeout, the timer runs with the library's
  -- interval.
  pub step-Armed :
      (e : ℕ) (c c' : Conn M)
      → step api e c ≡ ok (c', false)
      → is_waiting c'.current_state ≡ true
      → (asked api e c.current_state c ≢ 0) × Armed api (asked api e c.current_state c) c'
  unfolding step
  step-Armed e c c' h w = Ensures-ok (dispatch-Waits e c.current_state c refl) h refl w
