-- ===== src/Lib.antt =====
-- ltapp: asynchronous MySQL connections, an etcd client for coroutines, and an application shell.
--
-- The program's parts, and the files that model them:
-- * integration/async_mysql/query_session.{h,cc}, QuerySession: Mysql/Session. Sessions are shared
--   by pointers; Mysql/Store keeps them by reference, with the calls of OnQueryDone and of
--   callbacks.
-- * integration/async_mysql/mysql_async_con.{h,cc}, MysqlAsyncConnect: Mysql/Conn has its members
--   and helpers (LtEvToMysqlStatus, WaitMysqlStatus, go_next_state, clean_up, DoneCurrentQuery),
--   Mysql/Conn/Step one function for each case of HandleState, HandleStateConnect,
--   HandleStateSelectDB and HandleStateIDLE, and Mysql/Conn/Entry the loop of HandleState, the
--   constructor and destructor, StartQuery, Connect, SyncConnect, Close, SyncClose, the callbacks
--   of events and timers, and the connection check.
-- * integration/async_mysql/mysql_client_impl.{h,cc}, MysqlAsyncClientImpl: Mysql/Client. It uses
--   several connections in turn, by tasks that it posts to their loops; PendingQuery has whether
--   the calling thread has a loop as an argument: Mysql/Client/Rotation has the order in which it
--   chooses them, Mysql/Client/Work the client at work, with its tasks and its connections' events
--   in any order, where a query is submitted from a thread with a loop (its children Places,
--   Whereabouts and Growth say where its queries are and that what is done stays done, Service what
--   the client is as a whole), and Mysql/Client/Sound, Total and Init a client whose connections
--   are in their loops; Mysql/Client/End has its constructor and its destructor.
-- * content/etcdv3/context/call_context.{h,cc}, CallContext: Etcd/CallContext, and Etcd/Race for
--   the two threads that meet in it. content/etcdv3/etcd_client.cc, EtcdClientV3: Etcd/Client, with
--   the range of a prefix in Etcd/Prefix and its channel and stubs in Etcd/Client/Setup.
--   content/etcdv3/etcd_watcher.cc, EtcdWatcher, and content/etcdv3/context/watch_context.{h,cc},
--   WatchContext: Etcd/Watch, with the watcher in Etcd/Watch/Watcher and the loop and the end of a
--   watch in Readings and Stop. content/etcdv3/context/keepalive_ctx.{h,cc}, KeepAliveContext:
--   Etcd/Keepalive, with its callbacks in any order in Etcd/Keepalive/Callbacks. Etcd/Server is a
--   server that keeps what it is given, as the client sees it, and Etcd/Server/Memory one such.
-- * content/shell/application.{h,cc}, the tasks of Application: Shell/Tasks, their schedules in
--   Shell/Schedule, the loop over tasks that act on a state in Shell/Sequence, the start of Run in
--   Shell/Startup, and the whole of Run, from the boot tasks to the clean-up tasks, in
--   Shell/Lifecycle. Its two waits on a condition variable may wake up spuriously.
-- * content/application.{h,cc}, the plain Application, and content/config_loader.cc, WithXMLConfig:
--   Content/Bootup. content/config/config_manager.{h,cc}, ConfigManager, and
--   content/config/lt_config.{h,cc}, XmlConfig: Content/Config.
-- * examples/main.cc, RawSampleManager: Examples/Sampler, and the loops of its main that send it
--   requests, in every interleaving: Examples/Sampler/Loops. examples/lt_app, the boot tasks of its
--   application: Examples/LtApp, over Content/Config, Shell/Sequence and Shell/Lifecycle, and its
--   RpcServerImpl: Examples/RpcServer. examples/etcdclient/test_client.cc: Examples/EtcdTest.
--   examples/async_mysql/asyncmysql_test.cc: Examples/MysqlTest, and what its loop hands to a
--   client in Typed. examples/fw_app: Examples/FwApp.
--
-- Base and Outcome hold what all share: names of the libraries, signed integers, lists by native
-- numbers, and code that may stop the process. Numbers of the source are natural numbers; an
-- unsigned count that becomes an `int` is converted at 32 bits, an index wraps at 32 bits, and a
-- byte of a key wraps at 8; the sampler's hash wraps at 64 bits and its counts at 16. Failed CHECKs
-- and NULL dereferences are the value `abort`.
--
-- Code that is not in the repository is a parameter: the MariaDB client library is the record
-- MysqlApi over a handle, the stubs of grpc the records KvStub and LeaseStub, its server side the
-- record Grpc, an etcd server with its state the record KvServer, what its watch stream says a list
-- of readings, what its keep-alive stream does a list of callbacks, the XML reader a function. Of
-- the MariaDB library it is supposed, where a theorem says so, that it gives each row once
-- (GivesRowsOnce): a row that it gives leaves fewer to give; and that it gives the rows of a query
-- and then the end, each after some waits, as long as each wait is continued with a status that has
-- a flag of those the wait asked for, on a result of as many columns (Delivers). Of an etcd server
-- it is supposed, where a theorem says so, that it answers a range by its pairs whose key is in it,
-- and that a Put that succeeds replaces the pair with its key (IsEtcd). The message loop is shown
-- by the calls that it makes, in any order.
--
-- The loop of HandleState runs on fuel, one unit a turn. A run that uses it up is out_of_fuel,
-- which is neither a return nor a stop; so does the main loop of asyncmysql_test.cc, one unit a
-- line. Mysql/Total gives a measure of a connection (the queries that wait, the distance of its
-- state from the end of a query, the rows left) that every turn after which the loop goes on makes
-- smaller; Mysql/Total/Halts draws the fuel from it. Runs with different fuel are compared in
-- Mysql/Fuel and Mysql/Client/Fuel, so that Mysql/Client/Reaches, and over it Mysql/Client/Once and
-- Mysql/Client/AllDone, have one fuel for the whole history of a client. Mysql/Refine is the
-- abstract server that a connection implements, Mysql/Safety the invariant of a connection in its
-- loop, Mysql/Armed what it waits for, Mysql/Flags the bits of a status, Mysql/Answer, Mysql/Fetch
-- and Mysql/Rows, with the events of several waits, the rows of a query, Mysql/History runs of
-- calls in any order, Mysql/Methods the methods.
--
-- Not modelled: logging; content/registry, whose functions have empty bodies; the generated files
-- of protoc and grpc; the copy of MariaDB's example in examples/async_mysql, which is that
-- project's. A callback of a session is a number: what it does when it runs, such as starting
-- another query, is not shown inside OnQueryDone. Whether a loop that has ended still runs the
-- clean-up coroutine is the loop's matter.
pub mod Base
pub mod Outcome
pub mod Mysql
pub mod Etcd
pub mod Shell
pub mod Content
pub mod Examples
