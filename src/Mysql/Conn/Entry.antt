-- ===== src/Mysql/Conn/Entry.antt =====
-- The loop of HandleState, and the public methods of MysqlAsyncConnect with the callbacks of its
-- events and timers (mysql_async_con.cc).
use ltapp.Base.{
  ℕ, zero, suc, ◌+◌, ◌/◌, Bool, true, false, ◌&&◌, not, none, some, [], ◌∷◌, ◌++◌, ltb,
  if◌then◌else◌, is_some,
}
use ltapp.Base.Int.{ℤ, negsuc, is_zero, to_int32}
use ltapp.Mysql.Session
use ltapp.Mysql.Store
use ltapp.Mysql.Store.{Store}
use ltapp.Mysql.Run.{Run, returned, aborted, out_of_fuel, of_outcome, and_then}
use ltapp.Mysql.Api.{
  MysqlOptions, MysqlApi, nonblock, read_default_group, read_timeout, write_timeout,
  connect_timeout,
}
use ltapp.Outcome.{Outcome, ok, abort, check_some, ◌>>=◌}
use ltapp.Mysql.Conn.{
  State, Conn, LtEvent, clean_up, reset_wait_event, lt_ev_to_mysql_status, detach,
}
use ltapp.Mysql.Conn.Step.{
  handle_connect_start, handle_connect_wait, handle_connect_done, handle_close_start,
  handle_close_wait, handle_close_done, handle_state_idle, handle_select_db_start,
  handle_select_db_wait, handle_select_db_done, handle_query_start, handle_query_wait,
  handle_result_ready, handle_fetch_start, handle_fetch_wait, handle_row_ready,
}

abbrev pub is_idle : State → Bool
is_idle State.connection_idle = true
is_idle _ = false

abbrev pub is_query_start : State → Bool
is_query_start State.query_start = true
is_query_start _ = false

-- The constructor. It sets neither err_no_ nor current_state_ nor mysql_: their values are arguments.
unfoldable pub new : {M : Type 0} → Bool → M → ℤ → State → MysqlOptions → Bool → Conn M
new has_client mysql err_no state option in_loop = record {
  err_no = err_no;
  current_state = state;
  mysql = mysql;
  mysql_ret = false;
  result = none;
  result_row = none;
  option = option;
  has_client = has_client;
  fd_event = none;
  timeout = none;
  checker_running = false;
  ready = false;
  schedule_close = false;
  last_selected_db = "";
  in_process = none;
  query_list = [];
  store = record { sessions = λ _. Session.new; finished = []; invoked = [] };
  notices = [];
  posted = 0;
  in_loop_thread = in_loop;
}

module _ {M : Type 0} (api : MysqlApi M) where
  -- The switch of HandleState, with those of HandleStateConnect and HandleStateSelectDB.
  unfoldable pub dispatch : ℕ → State → Conn M → Outcome (Conn M × Bool)
  dispatch e State.connect_start c = handle_connect_start api c
  dispatch e State.connect_wait c = handle_connect_wait api e c
  dispatch e State.connect_done c = handle_connect_done api c
  dispatch e State.close_start c = handle_close_start api c
  dispatch e State.close_wait c = handle_close_wait api e c
  dispatch e State.close_done c = handle_close_done api c
  dispatch e State.connection_idle c = handle_state_idle api c
  dispatch e State.select_db_start c = check_some c.in_process λ q. handle_select_db_start api q c
  dispatch e State.select_db_wait c = check_some c.in_process λ q. handle_select_db_wait api e c
  dispatch e State.select_db_done c = check_some c.in_process λ q. handle_select_db_done api q c
  dispatch e State.query_start c = check_some c.in_process λ q. handle_query_start api q c
  dispatch e State.query_wait c = check_some c.in_process λ q. handle_query_wait api e c
  dispatch e State.query_result_ready c = check_some c.in_process λ q. handle_result_ready api c
  dispatch e State.fetch_row_start c = check_some c.result λ res. handle_fetch_start api res c
  dispatch e State.fetch_row_wait c = check_some c.result λ res. handle_fetch_wait api e res c
  dispatch e State.fetch_row_result_ready c =
      check_some c.in_process λ q. check_some c.result λ res. handle_row_ready api q res c
  dispatch e State.state_none c = abort
  dispatch e State.connect_init c = abort

  unfoldable pub step : ℕ → Conn M → Outcome (Conn M × Bool)
  unfolding dispatch
  step in_event c = dispatch in_event c.current_state c

  -- HandleState: `while (st_continue)`, with fuel for the turns of the loop.
  unfoldable pub handle_state : ℕ → ℕ → Conn M → Run (Conn M)
  handle_state zero in_event c = out_of_fuel
  handle_state (suc fuel) in_event c = elim (step in_event c) [
    | abort ↦ aborted
    | ok (c', more) ↦ elim more [ true ↦ handle_state fuel in_event c' | false ↦ returned c' ]
  ]

  unfoldable pub on_time_out : ℕ → Conn M → Run (Conn M)
  on_time_out fuel c =
      and_then (of_outcome (reset_wait_event c)) λ c'. handle_state fuel api.wait_timeout c'

  -- HandleRead, HandleWrite, HandleError and HandleClose all call this.
  unfoldable pub on_wait_event_invoked : ℕ → LtEvent → Conn M → Run (Conn M)
  on_wait_event_invoked fuel e c =
      and_then (of_outcome (reset_wait_event c))
        λ c'. handle_state fuel (lt_ev_to_mysql_status api e) c'

  -- The last test of StartQuery.
  unfoldable pub wake : ℕ → Conn M → Run (Conn M)
  wake fuel c =
      if is_idle c.current_state && not (is_some c.in_process)
      then handle_state fuel 0 c
      else returned c

  unfoldable pub start_query : ℕ → ℕ → Conn M → Run (Conn M)
  unfolding wake
  start_query fuel q c =
      if c.in_loop_thread
      then wake fuel (record c { query_list = c.query_list ++ q ∷ [] })
      else aborted

  -- The last test of Close.
  unfoldable pub wake_close : ℕ → Conn M → Run (Conn M)
  wake_close fuel c =
      if not (is_some c.in_process) && is_query_start c.current_state
      then handle_state fuel 0 c
      else returned c

  unfoldable pub close : ℕ → Conn M → Run (Conn M)
  unfolding wake_close
  close fuel c =
      if c.in_loop_thread then wake_close fuel (record c { schedule_close = true }) else aborted

  unfoldable pub sync_close : Conn M → Outcome (Conn M)
  sync_close c = do
    c' ← clean_up c
    ok (record c' { ready = false; mysql = api.close c'.mysql; current_state = State.close_done })

  -- The options are given in seconds, and at least one.
  unfoldable pub default_timeout : MysqlOptions → ℕ
  default_timeout o = if ltb (o.query_timeout / 1000) 1 then 1 else o.query_timeout / 1000

  unfoldable pub init_connection : MysqlOptions → Conn M → Conn M
  unfolding default_timeout
  init_connection o c = record c {
    mysql = api.options (connect_timeout (default_timeout o)) (
        api.options (write_timeout (default_timeout o)) (
          api.options (read_timeout (default_timeout o)) (
            api.options (read_default_group "async_queries")
              (api.options nonblock (api.init c.mysql)))));
    option = o;
    timeout = some (record { attached = false; interval = to_int32 o.query_timeout });
    current_state = State.connect_init;
  }

  -- Connect posts HandleState(0) to the loop.
  unfoldable pub connect : Conn M → Conn M
  connect c = record c {
    current_state = State.connect_start;
    posted = c.posted + 1;
    checker_running = true;
  }

  -- The loop runs a posted HandleState(0).
  unfoldable pub run_posted : ℕ → Conn M → Run (Conn M)
  unfolding handle_state
  run_posted fuel c = handle_state fuel 0 c

  unfoldable pub sync_connect : Conn M → Conn M × Bool
  sync_connect c =
      let (connected, m) = api.real_connect c.option c.mysql in
      if connected
      then (
        record c {
          mysql = m;
          mysql_ret = true;
          ready = true;
          current_state = State.connection_idle;
          checker_running = true;
        },
        true,
      )
      else (record c { mysql = m; mysql_ret = false }, false)

  unfoldable pub do_connection_check : Conn M → Conn M
  do_connection_check c =
      let (code, m) = api.ping c.mysql in
      if is_zero code
      then record c { mysql = m; ready = true }
      else record c { mysql = m; ready = false; schedule_close = true }

-- The destructor: like clean_up it tells every session that is left "closed". The events are
-- removed by a task that it posts to the loop, whose effect is shown here.
unfoldable pub destroy : {M : Type 0} → Conn M → Conn M
destroy c = record c {
  in_process = none;
  query_list = [];
  store = Store.complete_all (negsuc 0) "closed" c.query_list (elim c.in_process [
    | none ↦ c.store
    | some q ↦ Store.complete_with q (negsuc 0) "closed" c.store
  ]);
  fd_event = none;
  timeout = detach c.timeout;
  checker_running = false;
}
