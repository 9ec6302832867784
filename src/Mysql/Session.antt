-- ===== src/Mysql/Session.antt =====
-- QuerySession of integration/async_mysql/query_session.h and .cc: what one query asks for, and the
-- answer that a connection collects in it. Callbacks are named by numbers.
use ltapp.Base.{ℕ, String, List, [], ◌∷◌, ◌++◌, Option, none, ◌≡◌, refl}
use ltapp.Base.Int.{ℤ, pos, to_int32}

abbrev pub ResultRow : Type 0
ResultRow = List String

pub record QuerySession : Type 0 where
  pub code : ℤ
  pub err_message : String
  pub query : String
  pub db_name : String
  pub result_count : ℤ  -- int32_t
  pub affected_rows : ℤ  -- int32_t
  pub column_names : List String
  pub results : List ResultRow
  pub finish_callback : Option ℕ

unfoldable pub new : QuerySession
new = record {
  code = pos 0;
  err_message = "";
  query = "";
  db_name = "";
  result_count = pos 0;
  affected_rows = pos 0;
  column_names = [];
  results = [];
  finish_callback = none;
}

unfoldable pub use_db : String → QuerySession → QuerySession
use_db db s = record s { db_name = db }

unfoldable pub with_query : String → QuerySession → QuerySession
with_query sql s = record s { query = sql }

unfoldable pub with_callback : Option ℕ → QuerySession → QuerySession
with_callback callback s = record s { finish_callback = callback }

unfoldable pub set_code : ℤ → String → QuerySession → QuerySession
set_code code message s = record s { code = code; err_message = message }

unfoldable pub pending_row : ResultRow → QuerySession → QuerySession
pending_row row s = record s { results = s.results ++ row ∷ [] }

-- `int rows` is given an unsigned 64-bit count.
unfoldable pub set_result_rows : ℕ → QuerySession → QuerySession
set_result_rows rows s = record s { result_count = to_int32 rows }

unfoldable pub set_affected_rows : ℕ → QuerySession → QuerySession
set_affected_rows line s = record s { affected_rows = to_int32 line }

unfoldable pub push_header : String → QuerySession → QuerySession
push_header name s = record s { column_names = s.column_names ++ name ∷ [] }

-- OnQueryDone gives the callback to run, if one is set, and forgets it.
unfoldable pub on_query_done : QuerySession → Option ℕ × QuerySession
on_query_done s = (s.finish_callback, record s { finish_callback = none })

-- A second OnQueryDone finds no callback and changes nothing.
pub on_query_done_twice :
    (s : QuerySession) → on_query_done (on_query_done s).1 ≡ (none, (on_query_done s).1)
unfolding on_query_done
on_query_done_twice s = refl
