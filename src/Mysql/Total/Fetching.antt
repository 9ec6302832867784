-- ===== src/Mysql/Total/Fetching.antt =====
-- The turns of HandleState (mysql_async_con.cc) that fetch rows bring the measure down.
use ltapp.Base.{ℕ, ◌<◌, ◌≡◌, refl, true, Option, none, some, arith, is_some}
use ltapp.Outcome.{Ensures, holds}
use ltapp.Mysql.Api.{Async, MysqlApi, ResultSet, Row}
use ltapp.Mysql.Conn.{State, Conn, goto, go_next_state}
use ltapp.Mysql.Conn.Step.{handle_fetch_start, end_of_rows, store_row, handle_row_ready}
use ltapp.Mysql.Total.{
  rank, Less, measure, Down, GivesRowsOnce, next_now-Down, next-Down, idle-Down,
}

module _ {M : Type 0} (rows_left : M → ℕ) (api : MysqlApi M) where
  pub fetch_start-Down :
      GivesRowsOnce rows_left api
      → (res : ResultSet) (c : Conn M)
      → Ensures
          (Down rows_left (measure rows_left State.fetch_row_start c))
          (handle_fetch_start api res c)
  unfolding handle_fetch_start go_next_state goto
  fetch_start-Down once res c =
      next_now-Down rows_left api _ _ _ _ (record c { result_row = r.out; mysql = r.handle })
        (λ z. given _ refl (once res c.result_row c.mysql z))
    where
      r : Async (Option Row) M
      r = api.fetch_row_start res c.result_row c.mysql

      given :
          (o : Option Row)
          → r.out ≡ o
          → (is_some r.out ≡ true → rows_left r.handle < rows_left c.mysql)
          → Less
              (measure rows_left State.fetch_row_result_ready
                (record c { result_row = r.out; mysql = r.handle }))
              (measure rows_left State.fetch_row_start c)
      given none e h = rw e (omega arith)
      given (some row) e h =
          rw e (let l : rows_left r.handle < rows_left c.mysql = h (rw e refl) in omega arith)

  pub fetched-Down :
      (r : Async (Option Row) M) (c : Conn M)
      → Ensures (Down rows_left (measure rows_left State.fetch_row_wait c)) (
          go_next_state api r.status State.fetch_row_wait State.fetch_row_result_ready
            (record c { result_row = r.out; mysql = r.handle }))
  fetched-Down r c =
      next-Down rows_left api _ _ _ _ (record c { result_row = r.out; mysql = r.handle })
        (omega arith) (below r.out)
    where
      below : (row : Option Row) → rank State.fetch_row_result_ready row < 5
      below none = omega arith
      below (some row) = omega arith

  pub end_of_rows-Down :
      (q : ℕ) (res : ResultSet) (c : Conn M)
      → Ensures
          (Down rows_left (measure rows_left State.fetch_row_result_ready c))
          (end_of_rows api q res c)
  unfolding end_of_rows
  end_of_rows-Down q res c = holds (
      idle-Down rows_left api _ _ _ (record c { store = _; mysql = _ }) (omega arith)
        (above c.result_row))
    where
      above : (row : Option Row) → 2 < rank State.fetch_row_result_ready row
      above none = omega arith
      above (some row) = omega arith

  pub store_row-Down :
      (q : ℕ) (res : ResultSet) (row : Row) (c : Conn M)
      → c.result_row ≡ some row
      → Ensures
          (Down rows_left (measure rows_left State.fetch_row_result_ready c))
          (store_row api q res row c)
  unfolding store_row go_next_state goto
  store_row-Down q res row c e = holds (λ h. rw e (omega arith))

  pub row_ready-Down :
      (q : ℕ) (res : ResultSet) (c : Conn M)
      → Ensures
          (Down rows_left (measure rows_left State.fetch_row_result_ready c))
          (handle_row_ready api q res c)
  unfolding handle_row_ready
  row_ready-Down q res c = go c.result_row refl
    where
      go :
          (o : Option Row)
          → c.result_row ≡ o
          → Ensures
              (Down rows_left (measure rows_left State.fetch_row_result_ready c))
              (elim o [ none ↦ end_of_rows api q res c | some row ↦ store_row api q res row c ])
      go none e = end_of_rows-Down q res c
      go (some row) e = store_row-Down q res row c e
