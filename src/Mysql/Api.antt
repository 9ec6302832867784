-- ===== src/Mysql/Api.antt =====
-- The MariaDB client library and the constants of its headers, which are not part of the
-- repository: a record of operations over a handle `M`, passed to every definition that calls them.
use ltapp.Base.{ℕ, String, Bool, List, Option}
use ltapp.Base.Int.{ℤ}

-- MysqlOptions of integration/async_mysql/mysql_async_con.h.
pub record MysqlOptions : Type 0 where
  pub host : String
  pub port : ℕ  -- uint32_t
  pub user : String
  pub passwd : String
  pub dbname : String
  pub query_timeout : ℕ  -- uint32_t

-- The options that InitConnection sets by mysql_options.
pub data ClientOption : Type 0 where
  nonblock : ClientOption
  read_default_group : String → ClientOption
  read_timeout write_timeout connect_timeout : ℕ → ClientOption

-- A MYSQL_ROW: a cell by its index, `none` where the pointer is NULL.
abbrev pub Row : Type 0
Row = ℕ → Option String

-- A MYSQL_RES: the number of fields, and the names that mysql_fetch_field has yet to give.
pub record ResultSet : Type 0 where
  pub num_fields : ℕ
  pub fields : List String

-- What a non-blocking call gives: the events to wait for (0 when it is complete), the new value
-- behind the pointer that it was passed, and the handle.
pub record Async (A M : Type 0) : Type 0 where
  pub status : ℕ
  pub out : A
  pub handle : M

-- A non-blocking call that writes an `A` is given the present value behind its pointer.
pub record MysqlApi (M : Type 0) : Type 0 where
  pub init : M → M
  pub options : ClientOption → M → M
  pub real_connect : MysqlOptions → M → Bool × M
  pub real_connect_start : MysqlOptions → Bool → M → Async Bool M
  pub real_connect_cont : ℕ → Bool → M → Async Bool M
  pub close : M → M
  pub close_start : M → ℕ × M
  pub close_cont : ℕ → M → ℕ × M
  pub ping : M → ℤ × M
  pub select_db_start : String → ℤ → M → Async ℤ M
  pub select_db_cont : ℕ → ℤ → M → Async ℤ M
  pub real_query_start : String → ℤ → M → Async ℤ M
  pub real_query_cont : ℕ → ℤ → M → Async ℤ M
  pub use_result : M → Option ResultSet × M
  pub fetch_row_start : ResultSet → Option Row → M → Async (Option Row) M
  pub fetch_row_cont : ResultSet → ℕ → Option Row → M → Async (Option Row) M
  pub num_rows : ResultSet → M → ℕ
  pub free_result : ResultSet → M → M
  pub errno : M → ℤ
  pub error : M → String
  pub affected_rows : M → ℕ
  pub get_timeout_value : M → ℕ
  pub wait_read : ℕ
  pub wait_write : ℕ
  pub wait_except : ℕ
  pub wait_timeout : ℕ
  pub cr_server_lost : ℤ
  pub cr_unknown_error : ℤ
  pub cr_out_of_memory : ℤ
  pub cr_server_gone_error : ℤ
