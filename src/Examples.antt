-- ===== src/Examples.antt =====
-- The repository's example programs: the sampler of examples/main.cc, the applications of
-- examples/lt_app and examples/fw_app, and the clients of examples/etcdclient and
-- examples/async_mysql.
pub mod Sampler
pub mod LtApp
pub mod RpcServer
pub mod EtcdTest
pub mod FwApp
pub mod MysqlTest
mod Tests
