-- ===== src/Mysql.antt =====
-- integration/async_mysql: query sessions, one asynchronous connection, and the client over several.
pub mod Session
pub mod Store
pub mod Api
pub mod Run
pub mod Conn
pub mod Refine
pub mod Safety
pub mod Total
pub mod Answer
pub mod Fetch
pub mod Rows
pub mod Armed
pub mod Flags
pub mod History
pub mod Fuel
pub mod Methods
pub mod Client
pub mod Fixture
mod Tests
