-- ===== src/Examples/MysqlTest/Tests.antt =====
-- The main loop with two lines before the "exit", for a client of two connections.
use ltapp.Base.{ℕ, ◌≡◌, refl, arith, List, [], ◌∷◌, String, if◌then◌else◌, ◌==◌}
use ltapp.Outcome.{ok, abort, check_some}
use ltapp.Mysql.Run.{Run, returned}
use ltapp.Mysql.Conn.{State, go_next_state, done_current_query}
use ltapp.Mysql.Conn.Step.{
  handle_state_idle, take_query, handle_query_start, handle_select_db_start, handle_select_db_done,
  handle_result_ready, handle_fetch_start, handle_row_ready, store_row, end_of_rows,
}
use ltapp.Mysql.Conn.Entry.{step, handle_state, start_query, sync_connect}
use ltapp.Mysql.History.{perform}
use ltapp.Mysql.Client.{
  Garbage, init_with_option, init_rounds, Client, as_size, next_index, get_client, dispatch_query,
  hand_back, post, pending_query, close,
}
use ltapp.Mysql.Client.Work.{Event, runs, put_back, on_connection, run_task, happen, run_events}
use ltapp.Mysql.Fixture.{rows_api, store, idle, options}
use ltapp.Mysql.Client.End.{new}
use ltapp.Base.Int.{pos}
use ltapp.Mysql.Session
use ltapp.Examples.MysqlTest.Typed.{handed_over, main_loop-hands_over}
use ltapp.Examples.MysqlTest.{written_result, main_loop, chosen_options}

abbrev two_ready : Client ℕ
two_ready = record {
  count = 2;
  use_index = 0;
  connections = idle [] ∷ idle [] ∷ [];
  store = store;
  tasks = [];
}

abbrev typed : List String
typed = "select 1" ∷ "show tables" ∷ "exit" ∷ "select 2" ∷ []

-- The first line's task is run before the second line is read.
abbrev between : ℕ → List Event
between i = if i == 8 then runs 0 ∷ [] else []

abbrev client_of : Run (Client ℕ × ℕ) → Client ℕ × ℕ
client_of (returned k) = k
client_of _ = (two_ready, 0)

abbrev read : Client ℕ × ℕ
read = client_of (main_loop rows_api 4 40 7 between typed two_ready)

reads : main_loop rows_api 4 40 7 between typed two_ready ≡ returned read
unfolding main_loop run_events happen pending_query get_client next_index as_size dispatch_query
    hand_back post run_task on_connection put_back perform start_query handle_state step
    handle_state_idle take_query check_some handle_query_start go_next_state handle_result_ready
    handle_fetch_start handle_row_ready store_row end_of_rows done_current_query
    handle_select_db_start handle_select_db_done close
reads = refl

abbrev two_lines : List String
two_lines = "select 1" ∷ "show tables" ∷ []

main_loop-hands_over_example :
    main_loop rows_api 4 40 7 (λ _. []) typed two_ready
    ≡ returned (close (handed_over rows_api 7 two_lines two_ready), 9)
main_loop-hands_over_example =
    main_loop-hands_over rows_api two_lines ("select 2" ∷ []) 4 40 7 two_ready (refl, (refl, tt))
      (omega arith) (omega arith) (refl, (refl, tt)) (omega arith)

-- A result of one column and two rows, as the callback writes it.
writes :
    written_result
      (record Session.new { column_names = "id" ∷ []; results = ("1" ∷ []) ∷ ("2" ∷ []) ∷ [] })
    ≡ "id" ∷ " \t| " ∷ "\n" ∷ "1" ∷ "\t| " ∷ "\n" ∷ "2" ∷ "\t| " ∷ []
unfolding written_result
writes = refl

-- The client of one connection that the program makes.
abbrev garbage : Garbage ℕ
garbage = record { handle = 5; err_no = pos 77; state = State.query_wait; option = options }

abbrev made : Client ℕ
made = elim (init_with_option rows_api garbage (chosen_options "db") (new 1 3 store)) [
  | ok k ↦ k
  | abort ↦ two_ready
]

makes_one : init_with_option rows_api garbage (chosen_options "db") (new 1 3 store) ≡ ok made
unfolding init_with_option init_rounds sync_connect new chosen_options
makes_one = refl
