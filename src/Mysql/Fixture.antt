-- ===== src/Mysql/Fixture.antt =====
-- A client library that gives so many rows and never waits, and connections over it, for the tests.
use ltapp.Base.{ℕ, zero, suc, ◌-◌, refl, true, false, List, [], ◌∷◌, Option, some, none, arith}
use ltapp.Base.Int.{pos}
use ltapp.Mysql.Session.{QuerySession}
use ltapp.Mysql.Store.{Store}
use ltapp.Mysql.Api.{MysqlApi, MysqlOptions, Row}
use ltapp.Mysql.Conn.{State, Conn}
use ltapp.Mysql.Safety.{Inv}
use ltapp.Mysql.Total.{GivesRowsOnce}

abbrev pub a_row : Option Row
a_row = some (λ i. some "x")

-- The handle counts the rows that are left.
abbrev pub give_row : ℕ → Option Row
give_row zero = none
give_row (suc n) = a_row

abbrev pub rows_api : MysqlApi ℕ
rows_api = record {
  init = λ m. m;
  options = λ o m. m;
  real_connect = λ o m. (true, m);
  real_connect_start = λ o b m. record { status = 0; out = true; handle = m };
  real_connect_cont = λ e b m. record { status = 0; out = true; handle = m };
  close = λ m. m;
  close_start = λ m. (0, m);
  close_cont = λ e m. (0, m);
  ping = λ m. (pos 0, m);
  select_db_start = λ db err m. record { status = 0; out = pos 0; handle = m };
  select_db_cont = λ e err m. record { status = 0; out = pos 0; handle = m };
  real_query_start = λ sql err m. record { status = 0; out = pos 0; handle = 2 };
  real_query_cont = λ e err m. record { status = 0; out = pos 7; handle = m };
  use_result = λ m. (some (record { num_fields = 1; fields = "name" ∷ [] }), m);
  fetch_row_start = λ res row m. record { status = 0; out = give_row m; handle = m - 1 };
  fetch_row_cont = λ res e row m. record { status = 0; out = give_row m; handle = m - 1 };
  num_rows = λ res m. 2;
  free_result = λ res m. m;
  errno = λ m. pos 0;
  error = λ m. "";
  affected_rows = λ m. 0;
  get_timeout_value = λ m. 1;
  wait_read = 1;
  wait_write = 2;
  wait_except = 4;
  wait_timeout = 8;
  cr_server_lost = pos 2013;
  cr_unknown_error = pos 2000;
  cr_out_of_memory = pos 2008;
  cr_server_gone_error = pos 2006;
}

pub given_once : GivesRowsOnce (λ m. m) rows_api
given_once res row zero s h = cc
given_once res row (suc n) s h = omega arith

abbrev pub options : MysqlOptions
options = record {
  host = "db";
  port = 3306;
  user = "u";
  passwd = "p";
  dbname = "app";
  query_timeout = 5000;
}

abbrev pub a_session : QuerySession
a_session = record {
  code = pos 0;
  err_message = "";
  query = "select 1";
  db_name = "";
  result_count = pos 0;
  affected_rows = pos 0;
  column_names = [];
  results = [];
  finish_callback = some 40;
}

abbrev pub store : Store
store = record { sessions = λ _. a_session; finished = []; invoked = [] }

-- A connection in a state, with a query in process or not, and waiting queries.
abbrev pub conn : State → Option ℕ → List ℕ → Conn ℕ
conn s current waiting = record {
  err_no = pos 0;
  current_state = s;
  mysql = 0;
  mysql_ret = true;
  result = none;
  result_row = none;
  option = options;
  has_client = true;
  fd_event = some (record { reading = true; writing = false });
  timeout = some (record { attached = false; interval = pos 5000 });
  checker_running = true;
  ready = true;
  schedule_close = false;
  last_selected_db = "app";
  in_process = current;
  query_list = waiting;
  store = store;
  notices = [];
  posted = 0;
  in_loop_thread = true;
}

abbrev pub idle : List ℕ → Conn ℕ
idle waiting = conn State.connection_idle none waiting

pub idle-Inv : (waiting : List ℕ) → Inv (idle waiting)
idle-Inv waiting = record {
  fits = record { in_loop = refl; timer = refl; busy = refl; fetched = λ h. cc; live = refl };
  installed = λ h. cc;
}
