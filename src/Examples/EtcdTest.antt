-- ===== src/Examples/EtcdTest.antt =====
-- PusKeyEvery of examples/etcdclient/test_client.cc over a server: a lease with its keep-alive, a node
-- for each number with that lease, the list of them, the end of the watch, and a last node. No one
-- else writes to the server meanwhile. StrUtil::Concat is a parameter. The test cases and main are
-- in the children.
pub mod Nodes
pub mod Watched
pub mod Alive
pub mod Cases
mod Tests
use ltapp.Base.{ℕ, zero, suc, ◌≡◌, Bool, true, false, List, [], ◌∷◌, Option, if◌then◌else◌}
use ltapp.Base.Int.{ℤ, pos}
use ltapp.Outcome.{Outcome, ok, abort, check_some}
use ltapp.Etcd.Client.{
  KeyValue, LeaseStub, Answer, answers, never_resumed, undefined, put_key_value, range, lease_grant,
}
use ltapp.Etcd.Server.{KvServer, stub_at, after_put}
use ltapp.Etcd.Watch.{WatchContext, stop_watch}
use ltapp.Etcd.Keepalive.{KeepAlive, lease_keepalive}

-- A coroutine goes on after a call only if that answers.
infixl 5 ◌>>=◌
abbrev pub ◌>>=◌ : {A B : Type 0} → Answer A → (A → Answer B) → Answer B
answers a >>= f = f a
never_resumed >>= f = never_resumed
undefined >>= f = undefined

abbrev pub server_dir : List ℕ
server_dir = b'/' ∷ b's' ∷ b'e' ∷ b'r' ∷ b'v' ∷ b'e' ∷ b'r' ∷ []

abbrev pub nodes_dir : List ℕ
nodes_dir =
    b'/' ∷ b's' ∷ b'e' ∷ b'r' ∷ b'v' ∷ b'e' ∷ b'r' ∷ b'/' ∷ b'n' ∷ b'o' ∷ b'd' ∷ b'e' ∷ b's' ∷ b'/'
    ∷ []

abbrev pub node_text : List ℕ
node_text = b'n' ∷ b'o' ∷ b'd' ∷ b'e' ∷ b'_' ∷ []

-- "should_not_be_watched_change_node"
abbrev pub last_text : List ℕ
last_text =
    b's' ∷ b'h' ∷ b'o' ∷ b'u' ∷ b'l' ∷ b'd' ∷ b'_' ∷ b'n' ∷ b'o' ∷ b't' ∷ b'_' ∷ b'b' ∷ b'e' ∷ b'_'
    ∷ b'w' ∷ b'a' ∷ b't' ∷ b'c' ∷ b'h' ∷ b'e' ∷ b'd' ∷ b'_' ∷ b'c' ∷ b'h' ∷ b'a' ∷ b'n' ∷ b'g'
    ∷ b'e' ∷ b'_' ∷ b'n' ∷ b'o' ∷ b'd' ∷ b'e' ∷ []

abbrev pub node : (List ℕ → ℕ → List ℕ) → ℤ → ℕ → KeyValue
node concat lease_id cnt = record {
  key = concat nodes_dir cnt;
  value = concat node_text cnt;
  lease = lease_id;
}

abbrev pub last_node : (List ℕ → ℕ → List ℕ) → ℤ → KeyValue
last_node concat lease_id = record {
  key = concat nodes_dir 99999;
  value = last_text;
  lease = lease_id;
}

-- What PusKeyEvery leaves: the server, the list that it printed, the keep-alive of its lease, which
-- nobody cancels, and the context of the stopped watch.
pub record Pushed (S : Type 0) : Type 0 where
  pub server : S
  pub kvs : List KeyValue
  pub keepalive : KeepAlive
  pub context : WatchContext

-- Once the list is printed: CHECK(watch_ctx) and CHECK(watch_ctx->StopWatch()).
unfoldable pub stop_watching : ℕ → Bool → Bool → Option WatchContext → Outcome WatchContext
unfolding check_some
stop_watching co cancel_ok done_ok ctx =
    check_some ctx
      λ w. let (w', stopped) = stop_watch co cancel_ok done_ok w in if stopped then ok w' else abort

module _ {S : Type 0} (concat : List ℕ → ℕ → List ℕ) (server : KvServer S) (co : ℕ) where
  -- `while (cnt > 0)`: a Put that fails is only logged.
  unfoldable pub put_nodes : ℤ → ℕ → S → Answer S
  put_nodes lease_id zero s = answers s
  put_nodes lease_id (suc cnt) s = do
    revision ← put_key_value (stub_at server s) co (node concat lease_id cnt)
    put_nodes lease_id cnt (after_put server (node concat lease_id cnt) s)

  -- The puts, and the list of all "/server" pairs.
  unfoldable pub push_nodes : ℤ → ℕ → S → Answer (S × List KeyValue)
  unfolding put_nodes
  push_nodes lease_id cnt s = do
    s' ← put_nodes lease_id cnt s
    kvs ← range (stub_at server s') co server_dir true
    answers (s', kvs)

  -- The rest: a last node is put once the watch has been stopped, where a failure is logged.
  unfoldable pub put_last :
      ℤ → KeepAlive → List KeyValue → S → Outcome WatchContext → Answer (Outcome (Pushed S))
  put_last lease_id k kvs s abort = answers abort
  put_last lease_id k kvs s (ok w) = do
    revision ← put_key_value (stub_at server s) co (last_node concat lease_id)
    answers (
        ok (record {
          server = after_put server (last_node concat lease_id) s;
          kvs = kvs;
          keepalive = k;
          context = w;
        }))

  -- What follows the keep-alive of the lease.
  unfoldable pub push_and_stop :
      Bool
      → Bool
      → Option WatchContext
      → ℤ
      → ℕ
      → S
      → Outcome KeepAlive
      → Answer (Outcome (Pushed S))
  unfolding push_nodes stop_watching put_last
  push_and_stop cancel_ok done_ok ctx lease_id cnt s abort = answers abort
  push_and_stop cancel_ok done_ok ctx lease_id cnt s (ok k) = do
    (s', kvs) ← push_nodes lease_id cnt s
    put_last lease_id k kvs s' (stop_watching co cancel_ok done_ok ctx)

  -- PusKeyEvery. `ctx` is what watch_ctx holds when it is looked at, `unset` what the members of a
  -- KeepAliveContext hold that its constructor leaves unset.
  unfoldable pub push_key_every :
      LeaseStub → ℤ × ℤ → Bool → Bool → Option WatchContext → ℕ → S → Answer (Outcome (Pushed S))
  unfolding push_and_stop
  push_key_every lease unset cancel_ok done_ok ctx cnt s = do
    lease_id ← lease_grant lease co (pos 120)
    push_and_stop cancel_ok done_ok ctx lease_id cnt s
        (lease_keepalive unset.0 unset.1 lease_id (pos 5000))
