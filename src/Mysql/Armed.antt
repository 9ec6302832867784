-- ===== src/Mysql/Armed.antt =====
-- What a connection waits for: a turn of HandleState (mysql_async_con.cc) that stops to wait leaves
-- the event and the timer set as the library's call in that turn asked.
pub mod Turns
use ltapp.Base.{
  ℕ, ◌*◌, ◌≡◌, ◌≢◌, refl, inl, inr, Bool, true, false, Option, none, some, List, [], ◌∷◌, arith,
  ◌==◌, Bool-cases, Option-cases,
}
use ltapp.Base.Int.{ℤ, pos, to_int32}
use ltapp.Outcome.{
  Outcome, ok, check_some, Ensures, holds, stops, Ensures-if, Ensures-check, Ensures-bind,
  Ensures-ok,
}
use ltapp.Mysql.Api.{MysqlApi, ResultSet}
use ltapp.Mysql.Conn.{
  State, Conn, LtEvent, has_flag, or_flag, lt_ev_to_mysql_status, goto, arm_timer,
  wait_mysql_status, go_next_state, fail_current,
}
use ltapp.Mysql.Conn.Step.{
  handle_connect_start, handle_connect_wait, handle_connect_done, handle_close_start,
  handle_close_wait, handle_close_done, take_query, handle_state_idle, handle_select_db_start,
  handle_select_db_wait, handle_select_db_done, handle_query_start, handle_query_wait,
  handle_result_ready, handle_fetch_start, handle_fetch_wait, end_of_rows, store_row,
  handle_row_ready,
}
use ltapp.Mysql.Conn.Entry.{dispatch, step}
use ltapp.Mysql.Refine.{clean_up-Serve}
use ltapp.Mysql.Safety.{is_waiting}

not_zero : (n : ℕ) → (n == 0) ≡ false → n ≢ 0
not_zero n e h = ground arith

module _ {M : Type 0} (api : MysqlApi M) where
  -- The event is enabled for what the status asks, and the timer runs if the status asks for it.
  pub record Armed (status : ℕ) (c : Conn M) : Type 0 where
    pub event :
        c.fd_event
        ≡ some (record {
          reading = has_flag status api.wait_read;
          writing = has_flag status api.wait_write;
        })
    pub timer :
        has_flag status api.wait_timeout ≡ true
        → c.timeout
          ≡ some (record {
            attached = true;
            interval = to_int32 (1000 * api.get_timeout_value c.mysql);
          })

  -- The calls of the library on query `q` and on result `res`.
  abbrev pub asked_for_query : ℕ → State → Conn M → ℕ → ℕ
  asked_for_query e State.select_db_start c q =
      (api.select_db_start (c.store.sessions q).db_name (pos 0) c.mysql).status
  asked_for_query e State.select_db_wait c q = (api.select_db_cont e (pos 0) c.mysql).status
  asked_for_query e State.query_start c q =
      (api.real_query_start (c.store.sessions q).query (pos 0) c.mysql).status
  asked_for_query e State.query_wait c q = (api.real_query_cont e (pos 0) c.mysql).status
  asked_for_query e _ c q = 0

  abbrev pub asked_for_rows : ℕ → State → Conn M → ResultSet → ℕ
  asked_for_rows e State.fetch_row_start c res =
      (api.fetch_row_start res c.result_row c.mysql).status
  asked_for_rows e State.fetch_row_wait c res =
      (api.fetch_row_cont res e c.result_row c.mysql).status
  asked_for_rows e _ c res = 0

  -- The status that the library's call in a state gives; 0 where there is none.
  abbrev pub asked : ℕ → State → Conn M → ℕ
  asked e State.connect_start c = (api.real_connect_start c.option c.mysql_ret c.mysql).status
  asked e State.connect_wait c = (api.real_connect_cont e c.mysql_ret c.mysql).status
  asked e State.close_start c = (api.close_start c.mysql).0
  asked e State.close_wait c = (api.close_cont e c.mysql).0
  asked e State.fetch_row_start c = elim c.result [
    | none ↦ 0
    | some res ↦ asked_for_rows e State.fetch_row_start c res
  ]
  asked e State.fetch_row_wait c = elim c.result [
    | none ↦ 0
    | some res ↦ asked_for_rows e State.fetch_row_wait c res
  ]
  asked e State.select_db_start c = elim c.in_process [
    | none ↦ 0
    | some q ↦ asked_for_query e State.select_db_start c q
  ]
  asked e State.select_db_wait c = elim c.in_process [
    | none ↦ 0
    | some q ↦ asked_for_query e State.select_db_wait c q
  ]
  asked e State.query_start c = elim c.in_process [
    | none ↦ 0
    | some q ↦ asked_for_query e State.query_start c q
  ]
  asked e State.query_wait c = elim c.in_process [
    | none ↦ 0
    | some q ↦ asked_for_query e State.query_wait c q
  ]
  asked e _ c = 0

  -- If a turn stops to wait, it was asked to, and is armed so.
  abbrev pub Waits : ℕ → Conn M × Bool → Type 0
  Waits status r =
      r.1 ≡ false → is_waiting r.0.current_state ≡ true → (status ≢ 0) × Armed status r.0

  wait-Armed : (st : ℕ) (c : Conn M) → Ensures (λ c'. Armed st c') (wait_mysql_status api st c)
  unfolding wait_mysql_status arm_timer
  wait-Armed st c = elim (Bool-cases (has_flag st api.wait_timeout)) [
    | inl e ↦ rw e (Ensures-check (λ t _. holds (record { event = refl; timer = λ _. refl })))
    | inr e ↦ rw e (holds (record { event = refl; timer = λ h. cc }))
  ]

  pub next-Waits :
      (st : ℕ) (w n : State) (c : Conn M) → Ensures (Waits st) (go_next_state api st w n c)
  unfolding go_next_state
  next-Waits st w n c = elim (Bool-cases (st == 0)) [
    | inl e ↦ rw (e, go_next_state) (holds (λ h. cc))
    | inr e ↦
        rw (e, go_next_state)
          (Ensures-bind (wait-Armed st (goto w c)) (λ c' v. holds (λ h i. (not_zero st e, v))))
  ]

  pub goes_on : (st : ℕ) (c : Conn M) → Ensures (Waits st) (ok (c, true))
  goes_on st c = holds (λ h. cc)
