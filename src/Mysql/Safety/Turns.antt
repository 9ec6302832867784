-- ===== src/Mysql/Safety/Turns.antt =====
-- The handlers of mysql_async_con.cc, one by one: each returns from a connection that fits its state,
-- and leaves one that is in its loop again.
use ltapp.Base.{
  ℕ, ◌≡◌, refl, sym, ap, subst, inl, inr, true, false, Option, none, some, List, [], ◌∷◌, arith,
  Option-cases, Bool-cases, str_eq, String, not, ◌&&◌,
}
use ltapp.Base.Int.{negsuc}
use ltapp.Outcome.{Returns, returns, Returns-if, Returns-check, Returns-bind}
use ltapp.Mysql.Api.{MysqlApi, ResultSet}
use ltapp.Mysql.Conn.{State, Conn, goto, go_next_state}
use ltapp.Mysql.Conn.Step.{
  handle_connect_start, handle_connect_wait, handle_connect_done, handle_close_start,
  handle_close_wait, handle_close_done, take_query, handle_state_idle, handle_select_db_start,
  handle_select_db_wait, handle_select_db_done, handle_query_start, handle_query_wait,
  handle_result_ready, handle_fetch_start, handle_fetch_wait, end_of_rows, store_row,
  handle_row_ready,
}
use ltapp.Mysql.Conn.Entry.{dispatch, step}
use ltapp.Mysql.Safety.{
  is_waiting, Fits, Inv, rests, closed, Turn, onward, clean_up-Fits, next-Turn, done-Fits,
  fail-Turn,
}

module _ {M : Type 0} (api : MysqlApi M) where
  connect_done-Turn :
      (c : Conn M) → Fits State.connect_done c → Returns Turn (handle_connect_done api c)
  unfolding handle_connect_done
  connect_done-Turn c f =
      Returns-if _ (returns (onward _ refl (ground arith))) (returns (onward _ refl (ground arith)))

  close_done-Turn : (c : Conn M) → Fits State.close_done c → Returns Turn (handle_close_done api c)
  unfolding handle_close_done
  close_done-Turn c f =
      Returns-bind (clean_up-Fits (record c { ready = false }) (ground arith)) (λ c' p.
        returns (record {
          inv = record { fits = ground (arith, p.0); installed = λ h. cc };
          go_on = λ h. cc;
          stop = λ _. closed refl p.1;
        }))

  take-Turn :
      (q : ℕ) (rest : List ℕ) (c : Conn M)
      → Fits State.connection_idle c
      → Returns Turn (take_query api q rest c)
  unfolding take_query
  take-Turn q rest c f =
      rw f.busy (elim (Bool-cases (not (str_eq db "") && not (str_eq db c.last_selected_db))) [
        | inl e ↦ rw e (returns (onward _ refl (ground arith)))
        | inr e ↦ rw e (returns (onward _ refl (ground arith)))
      ])
    where
      db : String
      db = (c.store.sessions q).db_name

  idle-Turn :
      (c : Conn M)
      → c.current_state ≡ State.connection_idle
      → Fits State.connection_idle c
      → Returns Turn (handle_state_idle api c)
  unfolding handle_state_idle goto
  idle-Turn c at f = go c.query_list refl
    where
      go : (l : List ℕ) → c.query_list ≡ l → Returns Turn (handle_state_idle api c)
      go [] e =
          rw (e, handle_state_idle)
            (Returns-if _ (returns (onward _ refl (ground arith))) (
              returns (record {
                inv = record {
                  fits = subst (λ s. Fits s c) (sym at) f;
                  installed = λ (h : is_waiting c.current_state ≡ true). cc (ap is_waiting at);
                };
                go_on = λ h. cc;
                stop = λ _. rests at e;
              })))
      go (q ∷ rest) e = rw (e, handle_state_idle) (take-Turn q rest c f)

  select_start-Turn :
      (q : ℕ) (c : Conn M)
      → Fits State.select_db_start c
      → Returns Turn (handle_select_db_start api q c)
  unfolding handle_select_db_start
  select_start-Turn q c f =
      Returns-if _ (next-Turn api _ _ _ _ refl refl (ground arith) (ground arith))
        (fail-Turn api _ State.select_db_start _ (ground arith))

  select_wait-Turn :
      (e : ℕ) (c : Conn M)
      → Fits State.select_db_wait c
      → Returns Turn (handle_select_db_wait api e c)
  unfolding handle_select_db_wait
  select_wait-Turn e c f =
      Returns-if _ (next-Turn api _ _ _ _ refl refl (ground arith) (ground arith))
        (fail-Turn api _ State.select_db_wait _ (ground arith))

  select_done-Turn :
      (q : ℕ) (c : Conn M)
      → Fits State.select_db_done c
      → Returns Turn (handle_select_db_done api q c)
  unfolding handle_select_db_done goto
  select_done-Turn q c f =
      Returns-if _
        (returns (
          onward _ refl (
            done-Fits api _ _ State.connection_idle State.select_db_done _ refl refl
              (ground arith))))
        (returns (onward _ refl (ground arith)))

  query_start-Turn :
      (q : ℕ) (c : Conn M) → Fits State.query_start c → Returns Turn (handle_query_start api q c)
  unfolding handle_query_start goto
  query_start-Turn q c f =
      Returns-if _
        (returns (
          onward _ refl (
            done-Fits api (negsuc 9998) (some "empty query") State.connection_idle State.query_start
              c refl refl f)))
        (Returns-if _ (next-Turn api _ _ _ _ refl refl (ground arith) (ground arith))
          (fail-Turn api _ State.query_start _ (ground arith)))

  query_wait-Turn :
      (e : ℕ) (c : Conn M) → Fits State.query_wait c → Returns Turn (handle_query_wait api e c)
  unfolding handle_query_wait
  query_wait-Turn e c f =
      Returns-if _ (next-Turn api _ _ _ _ refl refl (ground arith) (ground arith))
        (fail-Turn api _ State.query_wait _ (ground arith))

  -- go_next_state(0, ...), which goes on at once.
  fetch-Turn :
      (c : Conn M)
      → Fits State.fetch_row_start c
      → Returns Turn (go_next_state api 0 State.fetch_row_start State.fetch_row_start c)
  unfolding go_next_state goto
  fetch-Turn c f = returns (onward _ refl (ground arith))

  result_ready-Turn :
      (c : Conn M) → Fits State.query_result_ready c → Returns Turn (handle_result_ready api c)
  unfolding handle_result_ready
  result_ready-Turn c f = go (api.use_result c.mysql).0 refl
    where
      go :
          (o : Option ResultSet)
          → (api.use_result c.mysql).0 ≡ o
          → Returns Turn (handle_result_ready api c)
      go none e =
          rw (e, handle_result_ready) (fail-Turn api _ State.query_result_ready _ (ground arith))
      go (some r) e = rw (e, handle_result_ready) (fetch-Turn _ (ground arith))

  end_of_rows-Turn :
      (q : ℕ) (res : ResultSet) (c : Conn M)
      → Fits State.fetch_row_result_ready c
      → Returns Turn (end_of_rows api q res c)
  unfolding end_of_rows goto
  end_of_rows-Turn q res c f = returns (
      onward _ refl (
        done-Fits api _ _ State.connection_idle State.fetch_row_result_ready
          (record c { store = _; mysql = _ }) refl refl (ground arith)))

  row_ready-Turn :
      (q : ℕ) (res : ResultSet) (c : Conn M)
      → Fits State.fetch_row_result_ready c
      → Returns Turn (handle_row_ready api q res c)
  unfolding handle_row_ready store_row
  row_ready-Turn q res c f = elim (Option-cases c.result_row) [
    | inl e ↦ rw (e, handle_row_ready) (end_of_rows-Turn q res c f)
    | inr (row, e) ↦ rw (e, handle_row_ready) (fetch-Turn _ (ground arith))
  ]

  dispatch-Turn :
      (e : ℕ) (s : State) (c : Conn M)
      → c.current_state ≡ s
      → Fits s c
      → Returns Turn (dispatch api e s c)
  unfolding dispatch handle_connect_start handle_connect_wait handle_close_start handle_close_wait
      handle_fetch_start handle_fetch_wait
  dispatch-Turn e State.connect_start c at f =
      next-Turn api _ _ _ _ refl refl (ground arith) (ground arith)
  dispatch-Turn e State.connect_wait c at f =
      next-Turn api _ _ _ _ refl refl (ground arith) (ground arith)
  dispatch-Turn e State.connect_done c at f = connect_done-Turn c f
  dispatch-Turn e State.close_start c at f =
      next-Turn api _ _ _ _ refl refl (ground arith) (ground arith)
  dispatch-Turn e State.close_wait c at f =
      next-Turn api _ _ _ _ refl refl (ground arith) (ground arith)
  dispatch-Turn e State.close_done c at f = close_done-Turn c f
  dispatch-Turn e State.connection_idle c at f = idle-Turn c at f
  dispatch-Turn e State.select_db_start c at f =
      Returns-check f.busy (λ q _. select_start-Turn q c f)
  dispatch-Turn e State.select_db_wait c at f = Returns-check f.busy (λ q _. select_wait-Turn e c f)
  dispatch-Turn e State.select_db_done c at f = Returns-check f.busy (λ q _. select_done-Turn q c f)
  dispatch-Turn e State.query_start c at f = Returns-check f.busy (λ q _. query_start-Turn q c f)
  dispatch-Turn e State.query_wait c at f = Returns-check f.busy (λ q _. query_wait-Turn e c f)
  dispatch-Turn e State.query_result_ready c at f =
      Returns-check f.busy (λ q _. result_ready-Turn c f)
  dispatch-Turn e State.fetch_row_start c at f =
      Returns-check (f.fetched refl)
        (λ r _. next-Turn api _ _ _ _ refl refl (ground arith) (ground arith))
  dispatch-Turn e State.fetch_row_wait c at f =
      Returns-check (f.fetched refl)
        (λ r _. next-Turn api _ _ _ _ refl refl (ground arith) (ground arith))
  dispatch-Turn e State.fetch_row_result_ready c at f =
      Returns-check f.busy (λ q _. Returns-check (f.fetched refl) (λ r _. row_ready-Turn q r c f))
  dispatch-Turn e State.state_none c at f = cc f.live
  dispatch-Turn e State.connect_init c at f = cc f.live

  -- A turn of HandleState from a connection that is in its loop returns: no CHECK fails and
  -- no NULL pointer is followed. It leaves a connection that is in its loop, does not go on
  -- in a state that waits, and stops only where it waits for an event, is idle with no query
  -- waiting, or is closed.
  pub step-Turn : (e : ℕ) (c : Conn M) → Inv c → Returns Turn (step api e c)
  unfolding step
  step-Turn e c v = dispatch-Turn e c.current_state c refl v.fits
