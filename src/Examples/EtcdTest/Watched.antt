-- ===== src/Examples/EtcdTest/Watched.antt =====
-- The test case "watch" of examples/etcdclient/test_client.cc: TestWatch, the loop of its watch, and
-- PusKeyEvery, which stops the watch and then puts a last node.
use ltapp.Base.{
  ℕ, ◌+◌, ◌<◌, ◌≡◌, refl, ap, ◌∙◌, Bool, true, false, not, ◌&&◌, List, [], ◌∷◌, ◌++◌, Option, some,
  if◌then◌else◌, arith, inl,
}
use ltapp.Base.Int.{ℤ, pos}
use ltapp.Outcome.{
  Outcome, ok, check_some, ◌>>=◌, Ensures, holds, Ensures-ok, Ensures-bind, Ensures-check, known,
}
use ltapp.Etcd.Client.{
  KeyValue, LeaseStub, PutRequest, answers, lease_grant, put_request, put_key_value-result,
  lease_grant-time_to_alive,
}
use ltapp.Etcd.Client.Setup.{EtcdClientV3}
use ltapp.Etcd.Keepalive
use ltapp.Etcd.Keepalive.{KeepAlive, lease_keepalive}
use ltapp.Etcd.Server.{In, KvServer, IsEtcd, stub_at, after_put}
use ltapp.Etcd.Prefix.{in_range, is_prefix}
use ltapp.Etcd.Watch.{
  CreateRequest, create, cancel_watch, writes_done, Reading, WatchContext, stop_watch,
  watch_change_loop,
}
use ltapp.Etcd.Watch.Readings.{All, IsGood, batches, watch_change_loop-batches}
use ltapp.Etcd.Watch.Stop.{stop_watch-ends_loop}
use ltapp.Etcd.Watch.Watcher
use ltapp.Etcd.Watch.Watcher.{Opening, Watches, watch_key, watch_key-Watches}
use ltapp.Examples.EtcdTest.{
  nodes_dir, node, last_node, Pushed, stop_watching, put_last, push_and_stop, push_key_every,
}
use ltapp.Examples.EtcdTest.Nodes.{Joins, push_nodes-lists}

module _ {Channel WatchStub : Type 0} (new_stub : Option Channel → Option WatchStub)
    (opening : WatchStub → CreateRequest → Opening) where
  -- TestWatch: what it leaves in watch_ctx. PusKeyEvery is a coroutine of its own.
  unfoldable pub test_watch : Bool → ℕ → EtcdClientV3 Channel → Outcome WatchContext
  unfolding Watcher.new watch_key check_some
  test_watch can_yield co client = do
    watcher ← Watcher.new new_stub client
    ctx ← watch_key opening can_yield co nodes_dir true watcher
    check_some ctx ok

  test_watch-Watches :
      (can_yield : Bool) (co : ℕ) (client : EtcdClientV3 Channel) (w : WatchContext)
      → test_watch can_yield co client ≡ ok w
      → (stub : WatchStub) × Watches opening nodes_dir stub w
  unfolding test_watch Watcher.new check_some
  test_watch-Watches can_yield co client w h = Ensures-ok watched h
    where
      watched :
          Ensures
            (λ w. (stub : WatchStub) × Watches opening nodes_dir stub w)
            (test_watch can_yield co client)
      watched = Ensures-bind (known (Watcher.new new_stub client)) λ watcher _.
          Ensures-bind (known (watch_key opening can_yield co nodes_dir true watcher)) λ ctx e.
            Ensures-check λ w' f. holds (
              watcher.stub,
              watch_key-Watches opening can_yield co b'/' _ watcher w' (omega arith) (e ∙ ap ok f),
            )

module _ {S : Type 0} (concat : List ℕ → ℕ → List ℕ) (j : Joins concat) (server : KvServer S)
    (e : IsEtcd server) (accepts : (r : PutRequest) (s : S) → (server.put r s).1.ok ≡ true) where
  -- PusKeyEvery has listed `cnt` nodes, stopped the watch `w` and put the last node.
  pub record Unseen (id : ℤ) (cnt : ℕ) (events : List (List ℕ)) (w : WatchContext) (p : Pushed S)
      : Type 0 where
    pub lists : (i : ℕ) → i < cnt → In (node concat id i) p.kvs
    pub stored : e.Stored (last_node concat id) p.server
    -- The server watches the keys of all nodes, the last one's too.
    pub request : CreateRequest
    pub end : List ℕ
    pub sends : w.sent ≡ create request ∷ []
    pub of_end : request.range_end ≡ some end
    pub covers : (i : ℕ) → in_range request.key end (concat nodes_dir i) ≡ true
    -- The watch is cancelled under its id, and its writes are ended.
    pub cancels : p.context.sent ≡ create request ∷ cancel_watch w.watch_id ∷ writes_done ∷ []
    -- The loop of the watch ends with the next reading, whatever that is: the handler was given the
    -- events from before it, and those of that reading only if it is good.
    pub unseen :
        (co : ℕ) (next : Reading) (rest : List Reading)
        → (watch_change_loop co (next ∷ rest) p.context).0.handlers
          ≡ events
            ++ (if next.read_ok && not next.response.canceled
                then next.response.events ∷ []
                else [])
    pub ends :
        (co : ℕ) (next : Reading) (rest : List Reading)
        → (watch_change_loop co (next ∷ rest) p.context).1 ≡ true

  abbrev seen : Reading → List (List ℕ)
  seen r = if r.read_ok && not r.response.canceled then r.response.events ∷ [] else []

  no_reading : Reading
  no_reading = record {
    read_ok = false;
    response = record { created = false; canceled = false; watch_id = pos 0; events = [] };
    cancelled = false;
  }

  stop_watching-ok :
      (co n : ℕ) (w : WatchContext)
      → w.watch_id ≡ pos (n + 1)
      → stop_watching co true true (some w) ≡ ok (stop_watch co true true w).0
  unfolding stop_watching check_some
  stop_watching-ok co n w i =
      let ((_, gave), _, _) = stop_watch-ends_loop co co n w no_reading [] i in rw gave refl

  put_last-puts :
      (co : ℕ) (id : ℤ) (k : KeepAlive) (kvs : List KeyValue) (s : S) (w : WatchContext)
      → put_last concat server co id k kvs s (ok w)
        ≡ answers (
            ok (record {
              server = after_put server (last_node concat id) s;
              kvs = kvs;
              keepalive = k;
              context = w;
            }))
  unfolding put_last
  put_last-puts co id k kvs s w =
      rw (put_key_value-result (stub_at server s) co (last_node concat id)) refl

  push_key_every-stops :
      (lease : LeaseStub) (co : ℕ) (unset : ℤ × ℤ) (cnt n : ℕ) (s : S) (w : WatchContext)
      → w.watch_id ≡ pos (n + 1)
      → (p : Pushed S) × (push_key_every concat server co lease unset true true (some w) cnt s
          ≡ answers (ok p))
        × ((i : ℕ) → i < cnt → In (node concat (lease.lease_grant (pos 120)).response i) p.kvs)
        × e.Stored (last_node concat (lease.lease_grant (pos 120)).response) p.server
        × (p.context ≡ (stop_watch co true true w).0)
  unfolding push_key_every push_and_stop lease_keepalive Keepalive.start Keepalive.new
  push_key_every-stops lease co unset cnt n s w i =
      let id = (lease.lease_grant (pos 120)).response in
      let granted : lease_grant lease co (pos 120) ≡ answers id =
        (lease_grant-time_to_alive lease co (pos 120) (pos 0)).0 in
      let (s', kvs, run, lists) = push_nodes-lists concat j server e accepts co id cnt s in
      (
        record {
          server = after_put server (last_node concat id) s';
          kvs = kvs;
          keepalive = (Keepalive.start id (pos 5000) (Keepalive.new unset.0 unset.1)).0;
          context = (stop_watch co true true w).0;
        },
        rw (granted, run, stop_watching-ok co n w i)
            (put_last-puts co id _ kvs s' (stop_watch co true true w).0),
        lists,
        (e.puts (put_request (last_node concat id)) s' (accepts _ s') (last_node concat id)).1
            (inl refl),
        refl,
      )

  node-prefix : (i : ℕ) → is_prefix nodes_dir (concat nodes_dir i) ≡ true
  unfolding is_prefix
  node-prefix i = rw (j.joins nodes_dir i) refl

  -- With a server that keeps the pair of each Put and refuses none, and texts of numbers
  -- that stand behind the directory and differ: say that TestWatch leaves a context whose
  -- watch id is positive, that the watch's loop has then had good readings only, and that
  -- the two writes of StopWatch succeed. Then PusKeyEvery comes to its end; its list has
  -- each node that it put; the server keeps the last node, and watches the keys of all
  -- nodes; it was sent the cancellation of that watch and the end of the writes; and the
  -- loop ends with its next reading, whatever that is, with the events before it handed over
  -- and no others than those of that reading, if it is good.
  pub test_watch-Unseen :
      {Channel WatchStub : Type 0} (new_stub : Option Channel → Option WatchStub)
      (opening : WatchStub → CreateRequest → Opening) (client : EtcdClientV3 Channel)
      (can_yield : Bool) (lease : LeaseStub) (co co' co'' : ℕ) (unset : ℤ × ℤ) (cnt n : ℕ) (s : S)
      (w : WatchContext) (before : List Reading)
      → test_watch new_stub opening can_yield co' client ≡ ok w
      → w.watch_id ≡ pos (n + 1)
      → All IsGood before
      → (p : Pushed S) × (push_key_every concat server co lease unset true true
            (some (watch_change_loop co'' before w).0)
            cnt
            s
          ≡ answers (ok p))
        × Unseen (lease.lease_grant (pos 120)).response cnt (batches before) w p
  test_watch-Unseen new_stub opening client can_yield lease co co' co'' unset cnt n s w before h i
        g =
      let (stub, watches) = test_watch-Watches new_stub opening can_yield co' client w h in
      let (handled, same, sent) = watch_change_loop-batches co'' before w watches.reads_on g in
      let v = (watch_change_loop co'' before w).0 in
      let (p, run, lists, stored, context) =
        push_key_every-stops lease co unset cnt n s v (same ∙ i) in
      let ((cancels, _), _, _) = stop_watch-ends_loop co co n v no_reading [] (same ∙ i) in
      (
        p,
        run,
        record {
          lists = lists;
          stored = stored;
          request = watches.request;
          end = watches.end;
          sends = watches.sends;
          of_end = watches.of_end;
          covers = λ k. watches.covers (concat nodes_dir k) ∙ node-prefix k;
          cancels =
              ap (λ x. x.sent) context
              ∙ cancels
              ∙ ap (λ l. l ++ cancel_watch v.watch_id ∷ writes_done ∷ []) (sent ∙ watches.sends)
              ∙ ap (λ k. create watches.request ∷ cancel_watch k ∷ writes_done ∷ []) same;
          unseen = λ c next rest. rw context (
              (stop_watch-ends_loop co c n v next rest (same ∙ i)).1
              ∙ ap (λ l. l ++ seen next)
                  (handled ∙ ap (λ l. l ++ batches before) watches.no_events));
          ends = λ c next rest. rw context (stop_watch-ends_loop co c n v next rest (same ∙ i)).2;
        },
      )
