-- ===== src/Examples/MysqlTest.antt =====
-- main of examples/async_mysql/asyncmysql_test.cc: each line of the input is a query, until
-- the line "exit". Meanwhile the client is at work in its loop: what happens to it between two
-- lines is an argument. Flags other than the host, and the loop's own start and end, are left out;
-- client.reset() gives up main's reference, and the tasks of Close hold the connections.
pub mod Typed
mod Tests
use ltapp.Base.{
  ℕ, zero, suc, ◌+◌, ◌≡◌, Bool, List, [], ◌∷◌, ◌++◌, Option, none, some, String, str_eq, false,
  if◌then◌else◌,
}
use ltapp.Mysql.Session
use ltapp.Mysql.Session.{QuerySession}
use ltapp.Mysql.Store
use ltapp.Mysql.Api.{MysqlApi, MysqlOptions}
use ltapp.Mysql.Run.{Run, returned, and_then, of_outcome}
use ltapp.Mysql.Client.End
use ltapp.Mysql.Client.{Client, Garbage, pending_query, close, init_with_option}
use ltapp.Mysql.Client.Work.{Event, happen, run_events}

abbrev default_options : MysqlOptions
default_options = record {
  host = "127.0.0.1";
  port = 3306;
  user = "root";
  passwd = "";
  dbname = "mysql";
  query_timeout = 5000;
}

-- The options of main, where `host` is FLAGS_host.
unfoldable pub chosen_options : String → MysqlOptions
chosen_options host =
    if str_eq host "" then default_options else record default_options { host = host }

-- What the callback writes of the result, piece by piece.
unfoldable pub written_fields : List String → List String
written_fields [] = []
written_fields (field ∷ fields) = field ∷ " \t| " ∷ written_fields fields

unfoldable pub written_cells : List String → List String
written_cells [] = []
written_cells (v ∷ vs) = v ∷ "\t| " ∷ written_cells vs

unfoldable pub written_rows : List (List String) → List String
unfolding written_cells
written_rows [] = []
written_rows (row ∷ rows) = "\n" ∷ (written_cells row ++ written_rows rows)

unfoldable pub written_result : QuerySession → List String
unfolding written_fields written_rows
written_result qs = written_fields qs.column_names ++ written_rows qs.results

-- std::getline on std::cin: what is left of the input and the text that is read. At the end of the
-- input the text is emptied.
unfoldable pub getline : List String → List String × String
getline [] = ([], "")
getline (line ∷ lines) = (lines, line)

-- QuerySession::New() with UseDB, Query and Then; the callback is named by the session.
unfoldable pub new_query : ℕ → String → QuerySession
unfolding Session.with_callback Session.with_query Session.use_db Session.new
new_query q content =
    Session.with_callback (some q) (Session.with_query content (Session.use_db "mysql" Session.new))

module _ {M : Type 0} where
  -- A session that is made under the next name and handed to the client. The thread of main has no
  -- loop of its own.
  unfoldable pub submit : ℕ → String → Client M → Run (Client M)
  unfolding new_query Store.modify
  submit q content k = of_outcome (
      pending_query false q
        (record k { store = Store.modify q (λ _. new_query q content) k.store }))

module _ {M : Type 0} (api : MysqlApi M) where
  -- `while (content != "exit")`, on fuel of one unit a round. `between` is what happens to the client
  -- before each line is read, and `q` the name of the next session. The result has the next
  -- session's name; fuel that runs out is out_of_fuel.
  unfoldable pub main_loop :
      ℕ → ℕ → ℕ → (ℕ → List Event) → List String → Client M → Run (Client M × ℕ)
  unfolding submit getline
  main_loop zero fuel q between input k = Run.out_of_fuel
  main_loop (suc n) fuel q between input k = and_then (run_events api fuel (between q) k) λ k'.
      let (rest, content) = getline input in
      let again = and_then (submit q content k') λ k''. main_loop n fuel (q + 1) between rest k'' in
      if str_eq content "exit" then returned (close k', q) else again

  -- main: a client of one connection, InitWithOption, and the loop. `use_index` is what the client's
  -- constructor leaves unset, `g` what the connection's does.
  unfoldable pub program :
      Garbage M
      → ℕ
      → String
      → ℕ
      → ℕ
      → ℕ
      → (ℕ → List Event)
      → List String
      → Store.Store
      → Run (Client M × ℕ)
  unfolding End.new chosen_options main_loop
  program g use_index host n fuel q between input s =
      and_then (of_outcome (init_with_option api g (chosen_options host) (End.new 1 use_index s)))
        λ k. main_loop n fuel q between input k
