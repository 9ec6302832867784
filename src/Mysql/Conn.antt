-- ===== src/Mysql/Conn.antt =====
-- MysqlAsyncConnect of integration/async_mysql/mysql_async_con.h and .cc: the state of a connection
-- and the helpers that its state machine calls. The handlers are in Conn/Step, the public methods
-- in Conn/Entry. A failed CHECK and a NULL dereference are `abort`.
pub mod Step
pub mod Entry
use ltapp.Base.{
  ℕ, ◌*◌, bit_and, bit_or, String, Bool, true, false, not, ◌&&◌, ◌||◌, Option, none, some, List, [],
  ◌∷◌, ◌++◌, ◌==◌, if◌then◌else◌, is_some,
}
use ltapp.Base.Int.{ℤ, pos, negsuc, is_zero, eqb_ℤ, to_int32}
use ltapp.Mysql.Session
use ltapp.Mysql.Store
use ltapp.Mysql.Store.{Store}
use ltapp.Outcome.{Outcome, ok, abort, check_some, ◌>>=◌}
use ltapp.Mysql.Api.{MysqlOptions, ResultSet, Row, MysqlApi}

pub data State : Type 0 where
  state_none connect_init connect_start connect_wait connect_done : State
  connection_idle : State
  select_db_start select_db_wait select_db_done : State
  query_start query_wait query_result_ready : State
  fetch_row_start fetch_row_wait fetch_row_result_ready : State
  close_start close_wait close_done : State

-- What the connection's FdEvent is enabled for.
pub record Interest : Type 0 where
  pub reading : Bool
  pub writing : Bool

pub record Timeout : Type 0 where
  pub attached : Bool
  pub interval : ℤ

-- The calls of the MysqlClient interface that the connection makes.
pub data Notice : Type 0 where
  on_connect_ready on_connection_closed : Notice

-- The members of MysqlAsyncConnect, with what the world around it needs: the sessions behind its
-- references, the calls that its client got, the number of HandleState tasks that it has posted to
-- its loop, and whether the running thread is that of the loop.
pub record Conn (M : Type 0) : Type 0 where
  pub err_no : ℤ
  pub current_state : State
  pub mysql : M
  pub mysql_ret : Bool
  pub result : Option ResultSet
  pub result_row : Option Row
  pub option : MysqlOptions
  pub has_client : Bool
  pub fd_event : Option Interest
  pub timeout : Option Timeout
  pub checker_running : Bool
  pub ready : Bool
  pub schedule_close : Bool
  pub last_selected_db : String
  pub in_process : Option ℕ
  pub query_list : List ℕ
  pub store : Store
  pub notices : List Notice
  pub posted : ℕ
  pub in_loop_thread : Bool

-- The events that a base::FdEvent reports.
pub record LtEvent : Type 0 where
  pub read : Bool
  pub write : Bool
  pub error : Bool

-- `status & bit`, as a condition.
abbrev pub has_flag : ℕ → ℕ → Bool
has_flag status bit = not (bit_and status bit == 0)

abbrev pub or_flag : Bool → ℕ → ℕ → ℕ
or_flag true bit status = bit_or status bit
or_flag false bit status = status

-- pump->RemoveTimeoutEvent(timeout_.get())
abbrev pub detach : Option Timeout → Option Timeout
detach none = none
detach (some t) = some (record t { attached = false })

module _ {M : Type 0} where
  unfoldable pub goto : State → Conn M → Conn M
  goto s c = record c { current_state = s }

  -- clean_up: the events are removed, and every session that is left is told "closed".
  unfoldable pub clean_up : Conn M → Outcome (Conn M)
  clean_up c =
      if c.in_loop_thread
      then ok (record c {
        fd_event = none;
        timeout = elim c.fd_event [ none ↦ c.timeout | some _ ↦ detach c.timeout ];
        in_process = none;
        query_list = [];
        store = Store.complete_all (negsuc 0) "closed" c.query_list (elim c.in_process [
          | none ↦ c.store
          | some q ↦ Store.complete_with q (negsuc 0) "closed" c.store
        ]);
      })
      else abort

  -- reset_wait_event: both pointers are dereferenced.
  unfoldable pub reset_wait_event : Conn M → Outcome (Conn M)
  reset_wait_event c = check_some c.timeout λ t. check_some c.fd_event λ _. ok (record c {
    timeout = some (record t { attached = false });
    fd_event = some (record { reading = false; writing = false });
  })

module _ {M : Type 0} (api : MysqlApi M) where
  unfoldable pub lt_ev_to_mysql_status : LtEvent → ℕ
  lt_ev_to_mysql_status e =
      or_flag e.error api.wait_except
        (or_flag e.write api.wait_write (or_flag e.read api.wait_read 0))

  -- The timer part of WaitMysqlStatus.
  unfoldable pub arm_timer : ℕ → Conn M → Outcome (Conn M)
  arm_timer status c =
      if has_flag status api.wait_timeout
      then (check_some c.timeout λ _.
          let interval = to_int32 (1000 * api.get_timeout_value c.mysql) in
          ok (record c { timeout = some (record { attached = true; interval = interval }) }))
      else ok c

  -- WaitMysqlStatus: the event is installed when there is none yet.
  unfoldable pub wait_mysql_status : ℕ → Conn M → Outcome (Conn M)
  unfolding arm_timer
  wait_mysql_status status c = arm_timer status (record c {
    fd_event = some (record {
      reading = has_flag status api.wait_read;
      writing = has_flag status api.wait_write;
    });
  })

  -- go_next_state: `true` when the machine may go on at once.
  unfoldable pub go_next_state : ℕ → State → State → Conn M → Outcome (Conn M × Bool)
  unfolding wait_mysql_status goto
  go_next_state status wait_st next_st c =
      if status == 0
      then ok (goto next_st c, true)
      else (do c' ← wait_mysql_status status (goto wait_st c); ok (c', false))

  unfoldable pub is_fatal_error : ℤ → Bool
  is_fatal_error code =
      eqb_ℤ code api.cr_server_lost
      || eqb_ℤ code api.cr_unknown_error
      || eqb_ℤ code api.cr_out_of_memory
      || eqb_ℤ code api.cr_server_gone_error

  -- What DoneCurrentQuery writes to the session before OnQueryDone.
  unfoldable pub answer : ℤ → Option String → ℕ → Session.QuerySession → Session.QuerySession
  unfolding Session.set_code Session.set_affected_rows
  answer code message affected s = Session.set_affected_rows affected (
      if is_zero code then s else Session.set_code code (elim message [ none ↦ "" | some m ↦ m ]) s)

  unfoldable pub done_current_query : ℤ → Option String → Conn M → Conn M
  unfolding answer Store.modify Store.complete
  done_current_query code message c = elim c.in_process [
    | none ↦ c
    | some q ↦ record c {
      store =
          Store.complete q
            (Store.modify q (answer code message (api.affected_rows c.mysql)) c.store);
      in_process = none;
    }
  ]

  -- DoneCurrentQuery(code, ERR_STR); current_state_ = IsFatalError(code) ? ...; continue
  unfoldable pub fail_current : ℤ → Conn M → Outcome (Conn M × Bool)
  unfolding done_current_query is_fatal_error goto
  fail_current code c = ok (
    goto (if is_fatal_error code then close_start else connection_idle)
        (done_current_query code (some (api.error c.mysql)) c),
    true,
  )
