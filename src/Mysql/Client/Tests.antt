-- ===== src/Mysql/Client/Tests.antt =====
-- A client of two connections at work: runs of its tasks, and the theorems about them at concrete
-- inputs.
mod Waits
use ltapp.Base.{false, ℕ, ◌+◌, ◌≡◌, refl, List, [], ◌∷◌, arith}
use ltapp.Base.Count.{count}
use ltapp.Outcome.{abort, ok, check_some}
use ltapp.Mysql.Run.{Run, returned}
use ltapp.Mysql.Conn.{State, go_next_state, done_current_query}
use ltapp.Mysql.Conn.Step.{
  handle_state_idle, take_query, handle_query_start, handle_result_ready, handle_fetch_start,
  handle_row_ready, store_row, end_of_rows,
}
use ltapp.Mysql.Conn.Entry.{sync_connect, step, handle_state, start_query}
use ltapp.Mysql.History.{perform}
use ltapp.Mysql.Client.{
  Garbage, init_rounds, init_with_option, Client, start_query_on, as_size, next_index, get_client,
  dispatch_query, hand_back, post, pending_query,
}
use ltapp.Mysql.Client.Work.{
  Event, submits, runs, put_back, on_connection, run_task, happen, run_events,
}
use ltapp.Mysql.Client.Work.Places.{whereabouts, all_handed}
use ltapp.Mysql.Client.Rotation.{pending_queries, pending_queries-round_robin}
use ltapp.Mysql.Client.End.{new, destroy_client, run_events-destroy_client}
use ltapp.Mysql.Client.Work.Service.{Moves, service, happen-Moves}
use ltapp.Base.Int.{pos}
use ltapp.Mysql.Client.Sound.{Sound, query, task}
use ltapp.Mysql.Client.Total.{happen-total}
use ltapp.Mysql.Client.Reaches.{ComeInTurn}
use ltapp.Mysql.Client.Once.{AllOnce, init_with_option-AllOnce}
use ltapp.Mysql.Fixture.{options, given_once, idle-Inv, rows_api, store, idle}

abbrev pub two_ready : Client ℕ
two_ready = record {
  count = 2;
  use_index = 0;
  connections = idle [] ∷ idle [] ∷ [];
  store = store;
  tasks = [];
}

-- Two queries are handed over; the second one's task runs first.
abbrev events : List Event
events = submits 8 ∷ submits 9 ∷ runs 1 ∷ []

abbrev pub client_of : Run (Client ℕ) → Client ℕ
client_of (returned k) = k
client_of _ = two_ready

abbrev after_events : Client ℕ
after_events = client_of (run_events rows_api 40 events two_ready)

events_run : run_events rows_api 40 events two_ready ≡ returned after_events
unfolding run_events happen pending_query get_client next_index as_size dispatch_query hand_back
    post run_task on_connection put_back perform start_query handle_state step handle_state_idle
    take_query check_some handle_query_start go_next_state handle_result_ready handle_fetch_start
    handle_row_ready store_row end_of_rows done_current_query
events_run = refl

-- The second query is done, the first one is still a task.
second_is_done :
    (after_events.store.finished ≡ 9 ∷ []) × (after_events.tasks ≡ start_query_on 1 8 ∷ [])
unfolding run_events happen pending_query get_client next_index as_size dispatch_query hand_back
    post run_task on_connection put_back perform start_query handle_state step handle_state_idle
    take_query check_some handle_query_start go_next_state handle_result_ready handle_fetch_start
    handle_row_ready store_row end_of_rows done_current_query
second_is_done = (refl, refl)

pending_queries-round_robin_example :
    pending_queries false (7 ∷ 8 ∷ 9 ∷ []) two_ready
    ≡ ok (record two_ready {
      use_index = 3;
      tasks = start_query_on 1 7 ∷ start_query_on 0 8 ∷ start_query_on 1 9 ∷ [];
    })
pending_queries-round_robin_example =
    pending_queries-round_robin false (7 ∷ 8 ∷ 9 ∷ []) two_ready (omega arith) (refl, (refl, tt))
      (omega arith)

-- The first query's task is run too; then no task is left.
abbrev all_events : List Event
all_events = submits 8 ∷ submits 9 ∷ runs 1 ∷ runs 0 ∷ []

abbrev after_all : Client ℕ
after_all = client_of (run_events rows_api 40 all_events two_ready)

all_run : run_events rows_api 40 all_events two_ready ≡ returned after_all
unfolding run_events happen pending_query get_client next_index as_size dispatch_query hand_back
    post run_task on_connection put_back perform start_query handle_state step handle_state_idle
    take_query check_some handle_query_start go_next_state handle_result_ready handle_fetch_start
    handle_row_ready store_row end_of_rows done_current_query
all_run = refl

no_task_left : after_all.tasks ≡ []
unfolding run_events happen pending_query get_client next_index as_size dispatch_query hand_back
    post run_task on_connection put_back perform start_query handle_state step handle_state_idle
    take_query check_some handle_query_start go_next_state handle_result_ready handle_fetch_start
    handle_row_ready store_row end_of_rows done_current_query
no_task_left = refl

run_events-destroy_client_example :
    count 8 (destroy_client after_all).store.finished
    ≡ count 8 (whereabouts two_ready) + count 8 (all_handed all_events)
run_events-destroy_client_example =
    run_events-destroy_client rows_api 40 all_events two_ready after_all all_run no_task_left 8

-- A task is run that sends a query to a connection, which does it at once.
abbrev one_task : Client ℕ
one_task = record two_ready { use_index = 1; tasks = start_query_on 1 8 ∷ [] }

abbrev after_task : Client ℕ
after_task = client_of (happen rows_api 40 (runs 0) one_task)

task_runs : happen rows_api 40 (runs 0) one_task ≡ returned after_task
unfolding happen run_task on_connection put_back perform start_query handle_state step
    handle_state_idle take_query check_some handle_query_start go_next_state handle_result_ready
    handle_fetch_start handle_row_ready store_row end_of_rows done_current_query
task_runs = refl

happen-Moves_example : Moves [] (service one_task) (service after_task)
happen-Moves_example = happen-Moves rows_api 40 (runs 0) one_task after_task task_runs

two_ready-Sound : Sound two_ready
two_ready-Sound = record {
  connections = (idle-Inv [], (idle-Inv [], tt));
  tasks = tt;
  has_one = omega arith;
}

happen-total_example :
    (n : ℕ) × (k' : Client ℕ) × (happen rows_api n (submits 8) two_ready ≡ returned k') × Sound k'
happen-total_example =
    happen-total (λ m. m) rows_api given_once (submits 8) two_ready two_ready-Sound (query 8)

abbrev pub garbage : Garbage ℕ
garbage = record { handle = 5; err_no = pos 77; state = State.query_wait; option = options }

abbrev two_wanted : Client ℕ
two_wanted = record { count = 2; use_index = 0; connections = []; store = store; tasks = [] }

abbrev made : Client ℕ
made = elim (init_with_option rows_api garbage options two_wanted) [ ok k ↦ k | abort ↦ two_wanted ]

makes_two : init_with_option rows_api garbage options two_wanted ≡ ok made
unfolding init_with_option init_rounds sync_connect
makes_two = refl

events-ComeInTurn : ComeInTurn rows_api events made
events-ComeInTurn = (query 8, λ _ _ _. (query 9, λ _ _ _. (task 1, λ _ _ _. tt)))

init_with_option-AllOnce_example : AllOnce rows_api [] events made
unfolding new
init_with_option-AllOnce_example =
    init_with_option-AllOnce (λ m. m) rows_api given_once garbage options 2 0 store made events
      (omega arith) makes_two events-ComeInTurn
