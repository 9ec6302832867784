-- ===== src/Mysql/Client/Tests/Waits.antt =====
-- A client of one connection whose client library waits before it answers a query: the history has the
-- event that the connection waits for.
use ltapp.Base.{ℕ, ◌≡◌, refl, true, false, List, [], ◌∷◌, suc, zero, arith}
use ltapp.Base.Int.{pos}
use ltapp.Outcome.{ok, abort, check_some}
use ltapp.Mysql.Api.{MysqlApi}
use ltapp.Mysql.Run.{returned}
use ltapp.Mysql.Total.{GivesRowsOnce}
use ltapp.Mysql.Conn.{LtEvent, go_next_state, wait_mysql_status, arm_timer}
use ltapp.Mysql.Conn.Step.{handle_state_idle, take_query, handle_query_start}
use ltapp.Mysql.Conn.Entry
use ltapp.Mysql.Conn.Entry.{sync_connect, step, handle_state, start_query}
use ltapp.Mysql.History.{event, perform}
use ltapp.Mysql.Client.{
  Client, init_rounds, init_with_option, as_size, next_index, get_client, dispatch_query, hand_back,
  post, pending_query,
}
use ltapp.Mysql.Client.Work.{Event, submits, runs, calls, put_back, on_connection, run_task, happen}
use ltapp.Mysql.Client.End.{new}
use ltapp.Mysql.Client.Sound.{query, task, io}
use ltapp.Mysql.Client.Reaches.{ComeInTurn, ComeInTurn-after}
use ltapp.Mysql.Client.AllDone.{AllDone, init_with_option-AllDone}
use ltapp.Mysql.Client.Tests.{client_of, garbage, two_ready}
use ltapp.Mysql.Fixture.{rows_api, options, store}

abbrev slow_api : MysqlApi ℕ
slow_api = record rows_api {
  real_query_start = λ sql err m. record { status = 1; out = pos 0; handle = 2 };
  real_query_cont = λ e err m. record { status = 0; out = pos 0; handle = m };
}

slow_once : GivesRowsOnce (λ m. m) slow_api
slow_once res row zero s h = cc
slow_once res row (suc n) s h = omega arith

abbrev readable : LtEvent
readable = record { read = true; write = false; error = false }

abbrev history : List Event
history = submits 8 ∷ runs 0 ∷ calls 0 (event readable) ∷ []

abbrev made : Client ℕ
made = elim (init_with_option slow_api garbage options (new 1 0 store)) [
  | ok k ↦ k
  | abort ↦ two_ready
]

abbrev submitted : Client ℕ
submitted = client_of (happen slow_api 40 (submits 8) made)

abbrev waiting : Client ℕ
waiting = client_of (happen slow_api 40 (runs 0) submitted)

makes_one : init_with_option slow_api garbage options (new 1 0 store) ≡ ok made
unfolding init_with_option init_rounds sync_connect new
makes_one = refl

submits_one : happen slow_api 40 (submits 8) made ≡ returned submitted
unfolding happen pending_query get_client next_index as_size dispatch_query hand_back post
    check_some init_with_option init_rounds sync_connect new
submits_one = refl

runs_one : happen slow_api 40 (runs 0) submitted ≡ returned waiting
unfolding happen pending_query get_client next_index as_size dispatch_query hand_back post
    check_some init_with_option init_rounds sync_connect new run_task on_connection put_back perform
    start_query handle_state step handle_state_idle take_query handle_query_start go_next_state
    wait_mysql_status arm_timer Entry.init_connection Entry.new
runs_one = refl

event-ComeInTurn : ComeInTurn slow_api (calls 0 (event readable) ∷ []) waiting
unfolding happen pending_query get_client next_index as_size dispatch_query hand_back post
    check_some init_with_option init_rounds sync_connect new run_task on_connection put_back perform
    start_query handle_state step handle_state_idle take_query handle_query_start go_next_state
    wait_mysql_status arm_timer Entry.init_connection Entry.new
event-ComeInTurn = (io 0 _ readable refl refl, λ _ _ _. tt)

history-ComeInTurn : ComeInTurn slow_api history made
history-ComeInTurn = (
  query 8,
  ComeInTurn-after slow_api (submits 8) (runs 0 ∷ calls 0 (event readable) ∷ []) 40 made submitted
      submits_one
      (
        task 0,
        ComeInTurn-after slow_api (runs 0) (calls 0 (event readable) ∷ []) 40 submitted waiting
            runs_one event-ComeInTurn,
      ),
)

init_with_option-AllDone_example : AllDone slow_api [] history made
init_with_option-AllDone_example =
    init_with_option-AllDone (λ m. m) slow_api slow_once garbage options 1 0 store made history
      (omega arith) makes_one history-ComeInTurn
