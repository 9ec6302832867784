-- ===== src/Mysql/Refine.antt =====
-- What the connection promises of the order of its queries: an abstract server that takes waiting
-- queries one by one from the front, and every turn of HandleState as a move of that server.
pub mod Turns
use ltapp.Base.{
  ℕ, ◌≡◌, refl, sym, ap, ◌∙◌, ◌⊎◌, inl, inr, Bool, true, false, Option, none, some, List, [], ◌∷◌,
  ◌++◌, append_assoc, append-nil, arith, opt_list, str_eq, Option-cases, Bool-cases, if◌then◌else◌,
  String,
}
use ltapp.Base.Int.{ℤ, pos, negsuc, is_zero}
use ltapp.Mysql.Store
use ltapp.Mysql.Store.{Store}
use ltapp.Mysql.Session.{QuerySession}
use ltapp.Mysql.Api.{MysqlApi, ResultSet, Row}
use ltapp.Outcome.{
  Outcome, ok, abort, Ensures, holds, stops, Ensures-if, Ensures-check, Ensures-bind, Ensures-ok,
}
use ltapp.Mysql.Conn.{
  State, Conn, has_flag, goto, clean_up, wait_mysql_status, arm_timer, go_next_state,
  done_current_query, fail_current,
}
use ltapp.Mysql.Conn.Step.{
  handle_connect_start, handle_connect_wait, handle_connect_done, handle_close_start,
  handle_close_wait, handle_close_done, take_query, handle_state_idle, handle_select_db_start,
  handle_select_db_wait, handle_select_db_done, handle_query_start, handle_query_wait,
  handle_result_ready, handle_fetch_start, handle_fetch_wait, end_of_rows, store_row,
  handle_row_ready,
}
use ltapp.Mysql.Conn.Entry.{dispatch, step}

pub record View : Type 0 where
  pub done : List ℕ
  pub current : Option ℕ
  pub waiting : List ℕ

abbrev pub view : {M : Type 0} → Conn M → View
view c = record { done = c.store.finished; current = c.in_process; waiting = c.query_list }

-- The abstract server: nothing happens, the front is taken, the current query is done, or all that
-- is left is done at once, in order.
pub data Serve (v w : View) : Type 0 where
  keep : w ≡ v → Serve v w
  take :
      (q : ℕ)
      → v.current ≡ none
      → w ≡ record v { current = some q; waiting = w.waiting }
      → v.waiting ≡ q ∷ w.waiting
      → Serve v w
  finish :
      (q : ℕ)
      → v.current ≡ some q
      → w ≡ record v { done = v.done ++ q ∷ []; current = none }
      → Serve v w
  drop_all :
      w ≡ record {
        done = v.done ++ (opt_list v.current ++ v.waiting);
        current = none;
        waiting = [];
      }
      → Serve v w

pub finished-modify :
    (r : ℕ) (f : QuerySession → QuerySession) (s : Store)
    → (Store.modify r f s).finished ≡ s.finished
unfolding Store.modify
finished-modify r f s = refl

pub finished-complete : (r : ℕ) (s : Store) → (Store.complete r s).finished ≡ s.finished ++ r ∷ []
unfolding Store.complete
finished-complete r s = refl

finished-complete_with :
    (r : ℕ) (code : ℤ) (m : String) (s : Store)
    → (Store.complete_with r code m s).finished ≡ s.finished ++ r ∷ []
unfolding Store.complete_with
finished-complete_with r code m s = refl

finished-complete_all :
    (code : ℤ) (m : String) (rs : List ℕ) (s : Store)
    → (Store.complete_all code m rs s).finished ≡ s.finished ++ rs
unfolding Store.complete_all
finished-complete_all code m [] s = sym (append-nil s.finished)
finished-complete_all code m (r ∷ rs) s =
    rw
      (
        finished-complete_all code m rs (Store.complete_with r code m s),
        finished-complete_with r code m s,
        append_assoc,
      )
      refl

-- A turn that moves the server.
abbrev pub Serves : {M : Type 0} → Conn M → Outcome (Conn M × Bool) → Type 0
Serves c o = Ensures (λ r. Serve (view c) (view r.0)) o

pub finished-left :
    (o : Option ℕ) (rs : List ℕ) (s : Store)
    → (Store.complete_all
        (negsuc 0)
        "closed"
        rs
        (elim o [ none ↦ s | some q ↦ Store.complete_with q (negsuc 0) "closed" s ])).finished
      ≡ s.finished ++ (opt_list o ++ rs)
finished-left none rs s = finished-complete_all (negsuc 0) "closed" rs s
finished-left (some q) rs s =
    finished-complete_all (negsuc 0) "closed" rs _
    ∙ (rw (finished-complete_with q (negsuc 0) "closed" s, append_assoc) refl)

pub clean_up-Serve :
    {M : Type 0} (c : Conn M) → Ensures (λ c'. Serve (view c) (view c')) (clean_up c)
unfolding clean_up
clean_up-Serve c =
    Ensures-if c.in_loop_thread
      (holds (drop_all (rw (finished-left c.in_process c.query_list c.store) refl))) stops
