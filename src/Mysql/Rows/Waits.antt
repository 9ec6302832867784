-- ===== src/Mysql/Rows/Waits.antt =====
-- All rows of a query, each over several waits, in HandleState (mysql_async_con.cc).
use ltapp.Base.{ℕ, ◌≡◌, false, List, [], ◌∷◌}
use ltapp.Mysql.Api.{MysqlApi, Row}
use ltapp.Mysql.Conn.{Conn}

module _ {M : Type 0} (api : MysqlApi M) where
  -- Nothing is left to do.
  record Rests (c : Conn M) : Type 0 where
    none_waits : c.query_list ≡ []
    stays_open : c.schedule_close ≡ false

  abbrev pub rows_of : List (List ℕ × Row) → List Row
  rows_of [] = []
  rows_of ((sts, r) ∷ rows) = r ∷ rows_of rows
