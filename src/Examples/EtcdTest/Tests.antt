-- ===== src/Examples/EtcdTest/Tests.antt =====
-- The test cases with a server in memory, and a number written as that many ticks.
use ltapp.Base.{
  ℕ, zero, suc, ◌≡◌, refl, ap, true, false, some, none, List, [], ◌∷◌, ◌++◌, arith, length,
  length-append,
}
use ltapp.Base.Int.{ℤ, pos, negsuc}
use ltapp.Etcd.Client.{KeyValue, LeaseStub, answers}
use ltapp.Etcd.Server.Memory.{memory, memory_laws}
use ltapp.Outcome.{ok, abort}
use ltapp.Etcd.Client.Setup.{EtcdClientV3}
use ltapp.Etcd.Keepalive.{
  KeepAlive, start_call, start_write, start_read, start_writes_done, delay_write,
}
use ltapp.Etcd.Keepalive.Callbacks.{written, was_read, is_done}
use ltapp.Etcd.Watch
use ltapp.Etcd.Watch.{CreateRequest, Reading, WatchContext, watch_change_loop}
use ltapp.Etcd.Watch.Watcher.{Opening}
use ltapp.Examples.EtcdTest.{Pushed, push_key_every}
use ltapp.Examples.EtcdTest.Nodes.{Joins}
use ltapp.Examples.EtcdTest.Watched.{Unseen, test_watch, test_watch-Unseen}
use ltapp.Examples.EtcdTest.Alive.{lease_pair, test_keep_alive, test_keep_alive-ends}

abbrev ticks : ℕ → List ℕ
ticks zero = []
ticks (suc n) = 49 ∷ ticks n

length-ticks : (n : ℕ) → length (ticks n) ≡ n
length-ticks zero = refl
length-ticks (suc n) = ap suc (length-ticks n)

abbrev concat_ticks : List ℕ → ℕ → List ℕ
concat_ticks t n = t ++ ticks n

ticks_law : Joins concat_ticks
ticks_law = record {
  digits = ticks;
  joins = λ t n. refl;
  apart = λ t n m e. omega (
    arith,
    ap length e,
    length-append t (ticks n),
    length-append t (ticks m),
    length-ticks n,
    length-ticks m,
  );
}

abbrev leases : LeaseStub
leases = record {
  lease_grant = λ ttl. record { ok = true; response = pos 3 };
  time_to_live = λ id. record { ok = true; response = pos 9 };
}

-- A server that creates the watch 1, and reports two changes before it ends it.
abbrev opens : ℕ → CreateRequest → Opening
opens stub request = record {
  write_ok = true;
  read_ok = true;
  response = record { created = true; canceled = false; watch_id = pos 1; events = [] };
}

abbrev connected : EtcdClientV3 ℕ
connected = record { channel = some 3; kv_stub = none; lease_stub = none }

abbrev change : ℕ → Reading
change event = record {
  read_ok = true;
  response = record { created = false; canceled = false; watch_id = pos 1; events = event ∷ [] };
  cancelled = false;
}

abbrev watch_ctx : WatchContext
watch_ctx = elim (test_watch (λ c. c) opens true 6 connected) [ ok w ↦ w | abort ↦ Watch.new ]

test_watch-Unseen_example :
    (p : Pushed (List KeyValue)) × (push_key_every concat_ticks memory 7 leases
        (pos 0, pos 0)
        true
        true
        (some (watch_change_loop 8 (change 4 ∷ change 5 ∷ []) watch_ctx).0)
        20
        []
      ≡ answers (ok p))
    × Unseen concat_ticks ticks_law memory memory_laws
        (λ r s. refl)
        (pos 3)
        20
        ((4 ∷ []) ∷ (5 ∷ []) ∷ [])
        watch_ctx
        p
unfolding test_watch Watch.watch Watch.await_write Watch.await_read
test_watch-Unseen_example =
    test_watch-Unseen concat_ticks ticks_law memory memory_laws (λ r s. refl) (λ c. c) opens
      connected true leases 7 6 8 (pos 0, pos 0) 20 0 [] watch_ctx (change 4 ∷ change 5 ∷ []) refl
      refl ((refl, refl, refl), ((refl, refl, refl), tt))

abbrev concat_id : List ℕ → ℤ → List ℕ
concat_id t (pos n) = t ++ ticks n
concat_id t (negsuc n) = t ++ 45 ∷ ticks (suc n)

-- One write and read, then the Cancel, a second round, and the end of the stream.
test_keep_alive-ends_example :
    (s' : List KeyValue) × (k : KeepAlive) × (test_keep_alive concat_id memory 7 leases
        (pos 0, pos 0)
        (written true ∷ was_read true ∷ [])
        (written true ∷ was_read true ∷ is_done true ∷ [])
        []
      ≡ answers (ok (s', k)))
    × (k.call.success ≡ true)
    × (k.actions
        ≡ start_call
          ∷ start_write (pos 3)
          ∷ start_read
          ∷ delay_write (pos 2000)
          ∷ start_read
          ∷ start_writes_done
          ∷ [])
    × memory_laws.Stored (lease_pair concat_id (pos 3)) s'
test_keep_alive-ends_example =
    test_keep_alive-ends concat_id memory memory_laws leases 7 (pos 0, pos 0)
      (written true ∷ was_read true ∷ []) (written true ∷ was_read true ∷ []) [] true []
      (λ r s. refl) (refl, (refl, tt)) (refl, (refl, tt))
