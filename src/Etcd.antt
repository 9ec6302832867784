-- ===== src/Etcd.antt =====
-- content/etcdv3: calls of an etcd server from coroutines, a key prefix as a range, watches and the
-- keep-alive of leases.
pub mod CallContext
pub mod Race
pub mod Prefix
pub mod Client
pub mod Server
pub mod Watch
pub mod Keepalive
mod Tests
