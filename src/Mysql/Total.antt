-- ===== src/Mysql/Total.antt =====
-- HandleState ends: every turn of its loop that goes on brings a measure down, if the client library
-- gives each row of a result only once. With that, the public methods return.
pub mod Fetching
pub mod Down
pub mod Halts
use ltapp.Base.{
  ℕ, zero, suc, ◌+◌, ◌*◌, ◌≤◌, ◌<◌, ◌≡◌, refl, sym, ap, subst, ◌∙◌, ◌⊎◌, inl, inr, Bool, true,
  false, Option, none, some, List, [], ◌∷◌, ◌==◌, arith, Option-cases, Bool-cases, ==_iff, is_some,
  str_eq, String, not, ◌&&◌, length,
}
use ltapp.Base.Int.{ℤ, pos, negsuc, is_zero}
use ltapp.Outcome.{
  Outcome, ok, abort, Ensures, holds, stops, Ensures-if, Ensures-check, Ensures-bind, Ensures-ok,
  Returns-ok,
}
use ltapp.Mysql.Api.{Async, MysqlApi, ResultSet, Row}
use ltapp.Mysql.Conn.{
  State, Conn, goto, clean_up, wait_mysql_status, arm_timer, go_next_state, done_current_query,
  fail_current, is_fatal_error,
}
use ltapp.Mysql.Conn.Step.{
  handle_connect_start, handle_connect_wait, handle_connect_done, handle_close_start,
  handle_close_wait, handle_close_done, take_query, handle_state_idle, handle_select_db_start,
  handle_select_db_wait, handle_select_db_done, handle_query_start, handle_query_wait,
  handle_result_ready, handle_fetch_start, handle_fetch_wait, end_of_rows, store_row,
  handle_row_ready,
}
use ltapp.Mysql.Conn.Entry.{dispatch, step, handle_state}
use ltapp.Mysql.Run.{returned}
use ltapp.Mysql.Safety.{Inv, Settled, Turn}

pub record Measure : Type 0 where
  pub queries : ℕ
  pub rank : ℕ
  pub rows : ℕ

abbrev pub Less : Measure → Measure → Type 0
Less a b =
    (a.queries < b.queries)
    ⊎ ((a.queries ≤ b.queries) × (a.rank < b.rank))
    ⊎ ((a.queries ≤ b.queries) × (a.rank ≤ b.rank) × (a.rows < b.rows))

-- How far a state is from the end of its query.
abbrev rank : State → Option Row → ℕ
rank State.close_done row = 0
rank State.close_start row = 1
rank State.close_wait row = 1
rank State.connection_idle row = 2
rank State.connect_done row = 3
rank State.connect_start row = 4
rank State.connect_wait row = 4
rank State.fetch_row_result_ready none = 3
rank State.fetch_row_result_ready (some _) = 4
rank State.fetch_row_start row = 4
rank State.fetch_row_wait row = 5
rank State.query_result_ready row = 6
rank State.query_start row = 7
rank State.query_wait row = 7
rank State.select_db_done row = 8
rank State.select_db_start row = 9
rank State.select_db_wait row = 9
rank State.state_none row = 0
rank State.connect_init row = 0

abbrev rows_rank : State → ℕ → ℕ
rows_rank State.fetch_row_result_ready n = 2 * n + 2
rows_rank _ n = 2 * n + 1

module _ {M : Type 0} (rows_left : M → ℕ) where
  abbrev pub measure : State → Conn M → Measure
  measure s c = record {
    queries = length c.query_list;
    rank = rank s c.result_row;
    rows = rows_rank s (rows_left c.mysql);
  }

  -- A turn that goes on stays below the bound.
  abbrev pub Down : Measure → Conn M × Bool → Type 0
  Down b r = r.1 ≡ true → Less (measure r.0.current_state r.0) b

-- The library gives each row of a result once: fewer are left after it has given one.
abbrev pub GivesRowsOnce : {M : Type 0} → (M → ℕ) → MysqlApi M → Type 0
GivesRowsOnce {M} rows_left api =
    (res : ResultSet) (row : Option Row) (m : M)
    → (api.fetch_row_start res row m).status ≡ 0
    → is_some (api.fetch_row_start res row m).out ≡ true
    → rows_left (api.fetch_row_start res row m).handle < rows_left m

module _ {M : Type 0} (rows_left : M → ℕ) (api : MysqlApi M) where
  pub any : {A : Type 0} (o : Outcome A) → Ensures (λ a. Unit {0}) o
  any (ok a) = holds tt
  any abort = stops

  pub next_now-Down :
      (st : ℕ) (w n : State) (b : Measure) (c : Conn M)
      → (st ≡ 0 → Less (measure rows_left n c) b)
      → Ensures (Down rows_left b) (go_next_state api st w n c)
  unfolding go_next_state goto
  next_now-Down st w n b c l = elim (Bool-cases (st == 0)) [
    | inl e ↦ rw (e, go_next_state) (holds (λ _. l ((==_iff st 0).0 e)))
    | inr e ↦
        rw (e, go_next_state)
          (Ensures-bind (any (wait_mysql_status api st (goto w c))) (λ c' _. holds (λ h. cc)))
  ]

  pub next-Down :
      (st : ℕ) (w n : State) (b : Measure) (c : Conn M)
      → length c.query_list ≤ b.queries
      → rank n c.result_row < b.rank
      → Ensures (Down rows_left b) (go_next_state api st w n c)
  next-Down st w n b c q k = next_now-Down st w n b c (λ _. inr (inl (q, k)))

  query_list-done :
      (code : ℤ) (m : Option String) (c : Conn M)
      → (done_current_query api code m c).query_list ≡ c.query_list
  unfolding done_current_query
  query_list-done code m c = ground arith

  pub idle-Down :
      (code : ℤ) (m : Option String) (b : Measure) (c : Conn M)
      → length c.query_list ≤ b.queries
      → 2 < b.rank
      → Down rows_left b (goto State.connection_idle (done_current_query api code m c), true)
  unfolding goto
  idle-Down code m b c q k h = inr (inl (rw (query_list-done code m c) q, k))

  pub fail-Down :
      (code : ℤ) (b : Measure) (c : Conn M)
      → length c.query_list ≤ b.queries
      → 2 < b.rank
      → Ensures (Down rows_left b) (fail_current api code c)
  unfolding fail_current goto
  fail-Down code b c q k = elim (Bool-cases (is_fatal_error api code)) [
    | inl e ↦
        rw (e, fail_current)
          (holds (λ h.
            inr (inl (rw (query_list-done code (some (api.error c.mysql)) c) q, omega arith))))
    | inr e ↦
        rw (e, fail_current)
          (holds (λ h. inr (inl (rw (query_list-done code (some (api.error c.mysql)) c) q, k))))
  ]
