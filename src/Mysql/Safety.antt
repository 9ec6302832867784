-- ===== src/Mysql/Safety.antt =====
-- A connection that is in its loop never fails a CHECK and never follows a NULL pointer, and its
-- loop stops only to wait for an event, with nothing left to do, or closed.
pub mod Turns
use ltapp.Base.{
  ℕ, ◌≡◌, refl, sym, ap, subst, ◌∙◌, ◌⊎◌, inl, inr, Bool, true, false, Option, none, some, List, [],
  ◌∷◌, ◌==◌, arith, Option-cases, Bool-cases, is_some, str_eq, String, not, ◌&&◌,
}
use ltapp.Base.Int.{ℤ, pos, negsuc, is_zero}
use ltapp.Mysql.Store
use ltapp.Outcome.{
  Outcome, ok, abort, check_some, Returns, returns, Returns-if, Returns-check, Returns-bind,
}
use ltapp.Mysql.Api.{MysqlApi, ResultSet, Row}
use ltapp.Mysql.Conn.{
  State, Conn, goto, clean_up, detach, wait_mysql_status, arm_timer, go_next_state,
  done_current_query, fail_current, is_fatal_error,
}
use ltapp.Mysql.Conn.Step.{
  handle_connect_start, handle_connect_wait, handle_connect_done, handle_close_start,
  handle_close_wait, handle_close_done, take_query, handle_state_idle, handle_select_db_start,
  handle_select_db_wait, handle_select_db_done, handle_query_start, handle_query_wait,
  handle_result_ready, handle_fetch_start, handle_fetch_wait, end_of_rows, store_row,
  handle_row_ready,
}
use ltapp.Mysql.Conn.Entry.{dispatch, step}

abbrev pub is_waiting : State → Bool
is_waiting State.connect_wait = true
is_waiting State.select_db_wait = true
is_waiting State.query_wait = true
is_waiting State.fetch_row_wait = true
is_waiting State.close_wait = true
is_waiting _ = false

-- The states in which a query is in process.
abbrev pub is_busy : State → Bool
is_busy State.select_db_start = true
is_busy State.select_db_wait = true
is_busy State.select_db_done = true
is_busy State.query_start = true
is_busy State.query_wait = true
is_busy State.query_result_ready = true
is_busy State.fetch_row_start = true
is_busy State.fetch_row_wait = true
is_busy State.fetch_row_result_ready = true
is_busy _ = false

abbrev pub is_fetching : State → Bool
is_fetching State.fetch_row_start = true
is_fetching State.fetch_row_wait = true
is_fetching State.fetch_row_result_ready = true
is_fetching _ = false

-- All but the two states before Connect.
abbrev pub is_live : State → Bool
is_live State.state_none = false
is_live State.connect_init = false
is_live _ = true

-- The connection may be put in state `s`.
pub record Fits {M : Type 0} (s : State) (c : Conn M) : Type 0 where
  pub in_loop : c.in_loop_thread ≡ true
  pub timer : is_some c.timeout ≡ true
  pub busy : is_some c.in_process ≡ is_busy s
  pub fetched : is_fetching s ≡ true → is_some c.result ≡ true
  pub live : is_live s ≡ true

-- It is in a state that fits, and where it waits its event is installed.
pub record Inv {M : Type 0} (c : Conn M) : Type 0 where
  pub fits : Fits c.current_state c
  pub installed : is_waiting c.current_state ≡ true → is_some c.fd_event ≡ true

pub data Settled {M : Type 0} (c : Conn M) : Type 0 where
  waits : is_waiting c.current_state ≡ true → Settled c
  rests : c.current_state ≡ State.connection_idle → c.query_list ≡ [] → Settled c
  closed : c.current_state ≡ State.connect_done → c.query_list ≡ [] → Settled c

-- What one turn of the loop leaves.
pub record Turn {M : Type 0} (r : Conn M × Bool) : Type 0 where
  pub inv : Inv r.0
  pub go_on : r.1 ≡ true → is_waiting r.0.current_state ≡ false
  pub stop : r.1 ≡ false → Settled r.0

not_fetching : (s : State) → is_busy s ≡ false → is_fetching s ≡ true → ⊥
not_fetching State.fetch_row_start b h = cc
not_fetching State.fetch_row_wait b h = cc
not_fetching State.fetch_row_result_ready b h = cc
not_fetching _ b h = cc

module _ {M : Type 0} where
  -- On to a state that does not wait.
  pub onward :
      (c : Conn M) → is_waiting c.current_state ≡ false → Fits c.current_state c → Turn (c, true)
  onward c w f = record {
    inv = record { fits = f; installed = λ h. cc };
    go_on = λ _. w;
    stop = λ h. cc;
  }

  pub clean_up-Fits :
      (c : Conn M)
      → Fits State.close_done c
      → Returns (λ c'. Fits State.connect_done c' × (c'.query_list ≡ [])) (clean_up c)
  unfolding clean_up
  clean_up-Fits c f = rw f.in_loop (
      returns (elim (Option-cases c.fd_event) [
        | inl e ↦ (
          record {
            in_loop = refl;
            timer = rw e f.timer;
            busy = refl;
            fetched = λ h. cc;
            live = refl;
          },
          refl,
        )
        | inr (i, e) ↦ (
          record {
            in_loop = refl;
            timer = rw e (ground (arith, f.timer));
            busy = refl;
            fetched = λ h. cc;
            live = refl;
          },
          refl,
        )
      ]))

module _ {M : Type 0} (api : MysqlApi M) where
  wait-Fits :
      (st : ℕ) (s : State) (c : Conn M)
      → Fits s c
      → Returns
          (λ c'. Fits s c' × (c'.current_state ≡ c.current_state) × (is_some c'.fd_event ≡ true))
          (wait_mysql_status api st c)
  unfolding wait_mysql_status arm_timer
  wait-Fits st s c f =
      Returns-if _ (Returns-check f.timer (λ t e. returns (ground arith, refl, refl)))
        (returns (ground arith, refl, refl))

  pub next-Turn :
      (st : ℕ) (w n : State) (c : Conn M)
      → is_waiting w ≡ true
      → is_waiting n ≡ false
      → Fits w c
      → Fits n c
      → Returns Turn (go_next_state api st w n c)
  unfolding go_next_state goto
  next-Turn st w n c hw hn fw fn = Returns-if _ (returns (onward _ hn (ground arith))) (
      Returns-bind (wait-Fits st w (goto w c) (ground arith)) (λ c' p. returns (record {
        inv = record { fits = subst (λ s. Fits s c') (sym p.1) p.0; installed = λ _. p.2 };
        go_on = λ h. cc;
        stop = λ _. waits (ap is_waiting p.1 ∙ hw);
      })))

  pub done-Fits :
      (code : ℤ) (m : Option String) (s t : State) (c : Conn M)
      → is_live s ≡ true
      → is_busy s ≡ false
      → Fits t c
      → Fits s (goto s (done_current_query api code m c))
  unfolding done_current_query goto
  done-Fits code m s t c l b f = ground (arith, not_fetching s)

  pub fail-Turn :
      (code : ℤ) (s : State) (c : Conn M) → Fits s c → Returns Turn (fail_current api code c)
  unfolding fail_current goto
  fail-Turn code s c f = elim (Bool-cases (is_fatal_error api code)) [
    | inl e ↦
        rw (e, fail_current)
          (returns (
            onward _ refl
              (done-Fits code (some (api.error c.mysql)) State.close_start s c refl refl f)))
    | inr e ↦
        rw (e, fail_current)
          (returns (
            onward _ refl
              (done-Fits code (some (api.error c.mysql)) State.connection_idle s c refl refl f)))
  ]
