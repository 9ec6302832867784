-- ===== src/Mysql/Tests.antt =====
-- Runs of connections, and the theorems about them at concrete inputs.
use ltapp.Base.{
  ◌⊎◌, Bool, Option, none, ◌-◌, ◌≢◌, false, ℕ, ◌≡◌, refl, true, false, List, [], ◌∷◌, some, arith,
  get_elem?,
}
use ltapp.Base.Int.{pos}
use ltapp.Outcome.{abort, ok, Returns, check_some}
use ltapp.Mysql.Session
use ltapp.Mysql.Session.{QuerySession}
use ltapp.Mysql.Run.{Run, returned}
use ltapp.Mysql.Api.{MysqlApi, ResultSet, Row, Async}
use ltapp.Mysql.Conn.{
  wait_mysql_status, arm_timer, has_flag, lt_ev_to_mysql_status, State, Conn, LtEvent,
  go_next_state, done_current_query,
}
use ltapp.Mysql.Conn.Step.{
  handle_state_idle, take_query, handle_query_start, handle_result_ready, handle_fetch_start,
  handle_row_ready, store_row, end_of_rows,
}
use ltapp.Mysql.Conn.Entry.{
  step, handle_state, start_query, on_wait_event_invoked, close, destroy, connect, init_connection,
  sync_connect,
}
use ltapp.Mysql.Conn.Entry
use ltapp.Mysql.Refine.{view, Serve}
use ltapp.Mysql.Refine.Turns.{step-Serve}
use ltapp.Mysql.Safety.{Inv, Settled, Turn, is_waiting}
use ltapp.Mysql.Armed.{Armed}
use ltapp.Mysql.Armed.Turns.{step-Armed}
use ltapp.Mysql.Flags.{event_of, lt_ev_to_mysql_status-event_of}
use ltapp.Mysql.Safety.Turns.{step-Turn}
use ltapp.Mysql.Total.Halts.{handle_state-Halts}
use ltapp.Mysql.History.{Call, starts, closes, run_calls, perform, run_calls-destroy}
use ltapp.Mysql.Client.{Client, Passes, next_index, pending_query, pending_query-Passes}
use ltapp.Mysql.Fetch.{Gives}
use ltapp.Mysql.Fixture.{give_row, rows_api, given_once, options, store, conn, idle}

abbrev in_wait : Conn ℕ
in_wait = conn State.query_wait (some 3) (4 ∷ [])

in_wait-Inv : Inv in_wait
in_wait-Inv = record {
  fits = record { in_loop = refl; timer = refl; busy = refl; fetched = λ h. cc; live = refl };
  installed = λ h. refl;
}

abbrev read_event : LtEvent
read_event = record { read = true; write = false; error = false }

abbrev finished_of : Run (Conn ℕ) → List ℕ × List ℕ
finished_of (returned c) = (c.store.finished, c.store.invoked)
finished_of _ = ([], [])

abbrev conn_of : Run (Conn ℕ) → Conn ℕ
conn_of (returned c) = c
conn_of _ = idle []

-- Two queries of two rows each are served, and their callbacks run once each.
two_queries :
    finished_of (handle_state rows_api 40 0 (idle (1 ∷ 2 ∷ []))) ≡ (1 ∷ 2 ∷ [], 40 ∷ 40 ∷ [])
unfolding handle_state step handle_state_idle take_query check_some handle_query_start go_next_state
    handle_result_ready handle_fetch_start handle_row_ready store_row end_of_rows done_current_query
    Session.set_result_rows Session.push_header
two_queries = refl

takes_one : step rows_api 0 (idle (1 ∷ [])) ≡ ok (conn State.query_start (some 1) [], true)
unfolding step handle_state_idle take_query
takes_one = refl

step-Serve_example : Serve (view (idle (1 ∷ []))) (view (conn State.query_start (some 1) []))
step-Serve_example =
    step-Serve rows_api 0 (idle (1 ∷ [])) (conn State.query_start (some 1) []) true takes_one

step-Turn_example : Returns Turn (step rows_api 1 in_wait)
step-Turn_example = step-Turn rows_api 1 in_wait in_wait-Inv

handle_state-Halts_example :
    (n : ℕ) × (c' : Conn ℕ) × (handle_state rows_api n 1 in_wait ≡ returned c')
    × Inv c'
    × Settled c'
handle_state-Halts_example = handle_state-Halts (λ m. m) rows_api given_once 1 in_wait in_wait-Inv

abbrev history : List Call
history = starts 1 ∷ starts 2 ∷ closes ∷ []

abbrev after_history : Conn ℕ
after_history = conn_of (run_calls rows_api 40 history (idle []))

history_runs : run_calls rows_api 40 history (idle []) ≡ returned after_history
unfolding run_calls perform start_query handle_state step handle_state_idle take_query check_some
    handle_query_start go_next_state handle_result_ready handle_fetch_start handle_row_ready
    store_row end_of_rows done_current_query close
history_runs = refl

run_calls-destroy_example : (destroy after_history).store.finished ≡ 1 ∷ 2 ∷ []
run_calls-destroy_example =
    run_calls-destroy rows_api 40 history (idle []) after_history history_runs

abbrev fresh : Conn ℕ
fresh = Entry.new true 0 (pos 77) State.query_wait options true

connects : (sync_connect rows_api (init_connection rows_api options fresh)).1 ≡ true
unfolding sync_connect
connects = refl

abbrev two_connections : Client ℕ
two_connections = record {
  count = 2;
  use_index = 0;
  connections = record (idle []) { ready = false } ∷ idle [] ∷ [];
  store = store;
  tasks = [];
}

pending_query-Passes_example :
    (con : Conn ℕ) × (get_elem? two_connections.connections (next_index two_connections) ≡ some con)
    × ((con.ready ≡ false) × (true ≡ false) × (pending_query true 6 two_connections ≡ abort)
        ⊎ (k' : Client ℕ) × (pending_query true 6 two_connections ≡ ok k')
          × Passes true 6 two_connections k' con)
pending_query-Passes_example = pending_query-Passes true 6 two_connections (omega arith)

abbrev one_field : ResultSet
one_field = record { num_fields = 1; fields = "name" ∷ [] }

abbrev fetching : Conn ℕ
fetching = record (conn State.fetch_row_start (some 3) []) { mysql = 2; result = some one_field }

two_rows-Gives : Gives rows_api ((λ i. some "x") ∷ (λ i. some "x") ∷ []) 2
two_rows-Gives res row = (refl, refl, λ res' row'. (refl, refl, λ res'' row''. (refl, refl)))

-- A library that asks to wait for the event to read, and for a timeout.
abbrev waiting_api : MysqlApi ℕ
waiting_api = record rows_api {
  real_query_start = λ sql err m. record { status = 9; out = pos 0; handle = m };
}

abbrev about_to_query : Conn ℕ
about_to_query = conn State.query_start (some 3) []

abbrev armed : Conn ℕ
armed = elim (step waiting_api 0 about_to_query) [ ok (c, _) ↦ c | abort ↦ about_to_query ]

stops_to_wait : step waiting_api 0 about_to_query ≡ ok (armed, false)
unfolding step check_some handle_query_start go_next_state wait_mysql_status arm_timer
stops_to_wait = refl

armed-waits : is_waiting armed.current_state ≡ true
unfolding step check_some handle_query_start go_next_state wait_mysql_status arm_timer
armed-waits = refl

step-Armed_example : ◌≢◌ {A = ℕ} 9 0 × Armed waiting_api 9 armed
step-Armed_example = step-Armed waiting_api 0 about_to_query armed stops_to_wait armed-waits

lt_ev_to_mysql_status-event_of_example :
    (event_of rows_api (lt_ev_to_mysql_status rows_api read_event) ≡ read_event)
    × (has_flag (lt_ev_to_mysql_status rows_api read_event) 8 ≡ false)
lt_ev_to_mysql_status-event_of_example =
    lt_ev_to_mysql_status-event_of rows_api
      (record { read = refl; write = refl; except = refl; timeout = refl }) read_event

-- A library that waits for the event to read before each row and before the end, and asks again when
-- it is continued without that event.
abbrev continued : ℕ → Bool → Async (Option Row) ℕ
continued m true = record { status = 0; out = give_row m; handle = m - 1 }
continued m false = record { status = 1; out = none; handle = m }

abbrev slow_api : MysqlApi ℕ
slow_api = record rows_api {
  fetch_row_start = λ res row m. record { status = 1; out = none; handle = m };
  fetch_row_cont = λ res e row m. continued m (has_flag e 1);
}

abbrev row_x : Row
row_x i = some "x"
