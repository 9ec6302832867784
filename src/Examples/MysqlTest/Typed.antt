-- ===== src/Examples/MysqlTest/Typed.antt =====
-- What the loop of main of examples/async_mysql/asyncmysql_test.cc hands to a client whose connections
-- are ready, when nothing else happens to it before the line "exit".
use ltapp.Base.{
  ℕ, zero, suc, ◌+◌, ◌^◌, ◌<◌, ◌%◌, ◌≡◌, refl, sym, ap, ◌∙◌, false, List, [], ◌∷◌, ◌++◌, some,
  String, str_eq, arith, length, append-nil, append_assoc,
}
use ltapp.Mysql.Session
use ltapp.Mysql.Session.{QuerySession}
use ltapp.Mysql.Store
use ltapp.Mysql.Store.{Store}
use ltapp.Mysql.Api.{MysqlApi}
use ltapp.Mysql.Run.{Run, returned, of_outcome}
use ltapp.Mysql.Client.{Client, Task, start_query_on, close}
use ltapp.Mysql.Client.Work.{Event, run_events}
use ltapp.Mysql.Client.Rotation.{AllReady, round_robin, after_one, one_query}
use ltapp.Examples.MysqlTest.{new_query, getline, submit, main_loop}

abbrev pub NoneExits : List String → Type 0
NoneExits [] = Unit {0}
NoneExits (line ∷ lines) = (str_eq line "exit" ≡ false) × NoneExits lines

-- The names of the lines' queries.
abbrev pub names : ℕ → List String → List ℕ
names q [] = []
names q (line ∷ lines) = q ∷ names (q + 1) lines

-- The session of a line: its text as the query, the database, and the callback.
abbrev pub session_of : ℕ → String → QuerySession
session_of q line = record {
  code = Session.new.code;
  err_message = "";
  query = line;
  db_name = "mysql";
  result_count = Session.new.result_count;
  affected_rows = Session.new.affected_rows;
  column_names = [];
  results = [];
  finish_callback = some q;
}

abbrev pub with_sessions : ℕ → List String → Store → Store
with_sessions q [] s = s
with_sessions q (line ∷ lines) s =
    with_sessions (q + 1) lines (Store.modify q (λ _. session_of q line) s)

abbrev no_events : ℕ → List Event
no_events q = []

module _ {M : Type 0} (api : MysqlApi M) where
  -- The client once the lines are handed over.
  abbrev pub handed_over : ℕ → List String → Client M → Client M
  handed_over q lines k = record k {
    use_index = k.use_index + length lines;
    tasks = k.tasks ++ round_robin (length k.connections) k.use_index (names q lines);
    store = with_sessions q lines k.store;
  }

  abbrev with_session : ℕ → String → Client M → Client M
  with_session q line k = record k { store = Store.modify q (λ _. session_of q line) k.store }

  submit-ready :
      (q : ℕ) (line : String) (k : Client M)
      → 0 < length k.connections
      → AllReady k.connections
      → k.use_index + 1 < 2 ^ 31
      → submit q line k ≡ returned (after_one q (with_session q line k))
  unfolding submit new_query Session.new Session.use_db Session.with_query Session.with_callback
  submit-ready q line k p r h = ap of_outcome (one_query false q (with_session q line k) p r h)

  -- The end of the loop.
  abbrev ended : Client M → Store → ℕ → List Task → ℕ → Run (Client M × ℕ)
  ended k s i ts j = returned (close (record k { use_index = i; tasks = ts; store = s }), j)

  ended-same :
      (k : Client M) (s : Store) {i i' j j' : ℕ} {ts ts' : List Task}
      → i ≡ i'
      → ts ≡ ts'
      → j ≡ j'
      → ended k s i ts j ≡ ended k s i' ts' j'
  ended-same k s e f g = rw (e, f, g) refl

  -- With a client of at least one connection and all of them ready, and fuel for more rounds
  -- than lines: if nothing else happens to the client before the line "exit", the main loop
  -- ends there, although its thread has no loop, as long as use_index_ does not run over. A
  -- session was made of each line, under a name of its own and with the line as its query,
  -- and these were handed to the connections in turn, in the order of the lines; then the
  -- client was closed.
  pub main_loop-hands_over :
      (lines more : List String) (n fuel q : ℕ) (k : Client M)
      → NoneExits lines
      → length lines < n
      → 0 < length k.connections
      → AllReady k.connections
      → k.use_index + length lines < 2 ^ 31
      → main_loop api n fuel q (λ _. []) (lines ++ "exit" ∷ more) k
        ≡ returned (close (handed_over q lines k), q + length lines)
  unfolding main_loop run_events getline
  main_loop-hands_over [] more zero fuel q k x l p r h = absurd (omega (arith, l))
  main_loop-hands_over [] more (suc n) fuel q k x l p r h =
      ended-same k k.store (omega arith) (sym (append-nil k.tasks)) (omega arith)
  main_loop-hands_over (line ∷ lines) more zero fuel q k x l p r h = absurd (omega (arith, l))
  main_loop-hands_over (line ∷ lines) more (suc n) fuel q k x l p r h =
      rw (x.0, submit-ready q line k p r (omega arith))
        (main_loop-hands_over lines more n fuel (q + 1) (after_one q (with_session q line k)) x.1
            (omega (arith, l)) p r (omega arith)
          ∙ ended-same k (with_sessions q (line ∷ lines) k.store) (omega arith)
              (append_assoc k.tasks
                (start_query_on ((k.use_index + 1) % length k.connections) q ∷ [])
                (round_robin (length k.connections) (k.use_index + 1) (names (q + 1) lines)))
              (omega arith))
