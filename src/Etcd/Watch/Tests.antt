-- ===== src/Etcd/Watch/Tests.antt =====
-- Watches on concrete streams, and the theorems at them.
use ltapp.Base.{ℕ, ◌≡◌, refl, true, false, List, [], ◌∷◌, ◌++◌, some, none, inl, arith}
use ltapp.Base.Int.{ℤ, pos, negsuc}
use ltapp.Outcome.{ok}
use ltapp.Etcd.CallContext.{CallContext}
use ltapp.Outcome.{ok}
use ltapp.Etcd.Watch
use ltapp.Etcd.Watch.Readings.{batches, watch_change_loop-good}
use ltapp.Etcd.Watch.Stop.{stop_watch-ends_loop}
use ltapp.Etcd.Watch.Watcher.{EtcdWatcher, Opening, Watches, watch_key, watch_key-Watches}
use ltapp.Etcd.Watch.{
  create, WatchContext, WatchResponse, Reading, CreateRequest, cancel_watch, writes_done,
  stop_watch, watch, watch_change_loop,
}

abbrev no_call : CallContext
no_call = record { success = false; cancel = false; done = false; resumer = none; resumed = [] }

abbrev a_watch : ℤ → WatchContext
a_watch id = record {
  watch_id = id;
  read_ctx = no_call;
  write_ctx = no_call;
  sent = [];
  handlers = [];
  looping = false;
}

abbrev reply : ℤ → List ℕ → WatchResponse
reply id events = record { created = true; canceled = false; watch_id = id; events = events }

abbrev two_readings : List Reading
two_readings =
    record { read_ok = true; response = reply (pos 1) (10 ∷ 11 ∷ []); cancelled = false }
    ∷ record { read_ok = true; response = reply (pos 1) (12 ∷ []); cancelled = false }
    ∷ []

abbrev broken : Reading
broken = record { read_ok = false; response = reply (pos 1) (13 ∷ []); cancelled = false }

watch_change_loop-good_example :
    ((watch_change_loop 7 (two_readings ++ broken ∷ []) (a_watch (pos 1))).0.handlers
      ≡ batches two_readings)
    × ((watch_change_loop 7 (two_readings ++ broken ∷ []) (a_watch (pos 1))).1 ≡ true)
watch_change_loop-good_example =
    watch_change_loop-good 7 two_readings broken [] (a_watch (pos 1)) refl
      ((refl, refl, refl), ((refl, refl, refl), tt)) (inl refl)

abbrev last_events : Reading
last_events = record { read_ok = true; response = reply (pos 1) (5 ∷ []); cancelled = false }

abbrev stopped : WatchContext
stopped = (stop_watch 7 true true (a_watch (pos 1))).0

stop_watch-ends_loop_example :
    ((stopped.sent ≡ cancel_watch (pos 1) ∷ writes_done ∷ [])
      × ((stop_watch 7 true true (a_watch (pos 1))).1 ≡ true))
    × ((watch_change_loop 8 (last_events ∷ last_events ∷ []) stopped).0.handlers ≡ (5 ∷ []) ∷ [])
    × ((watch_change_loop 8 (last_events ∷ last_events ∷ []) stopped).1 ≡ true)
stop_watch-ends_loop_example =
    stop_watch-ends_loop 7 8 0 (a_watch (pos 1)) last_events (last_events ∷ []) refl

abbrev a_request : CreateRequest
a_request = record {
  key = 97 ∷ [];
  range_end = none;
  prev_kv = true;
  start_revision = 0;
  watch_id = 1;
}

abbrev answered : CallContext
answered = record {
  success = true;
  cancel = false;
  done = true;
  resumer = some 7;
  resumed = 7 ∷ [];
}

abbrev watching : WatchContext
watching = record {
  watch_id = pos 0;
  read_ctx = answered;
  write_ctx = answered;
  sent = Watch.create a_request ∷ [];
  handlers = [];
  looping = true;
}

starts_at_zero :
    Watch.start 7 a_request true true (reply (pos 0) []) (a_watch (negsuc 0)) ≡ ok (watching, true)
unfolding Watch.start Watch.await_write Watch.await_read
starts_at_zero = refl

-- A client with the channel 3, and a server that creates the watch 1.
abbrev a_watcher : EtcdWatcher ℕ ℕ
a_watcher = record {
  client = record { channel = some 3; kv_stub = none; lease_stub = none };
  stub = 3;
}

abbrev opens : ℕ → CreateRequest → Opening
opens stub request = record { write_ok = true; read_ok = true; response = reply (pos 1) [] }

abbrev created_watch : WatchContext
created_watch = record {
  watch_id = pos 1;
  read_ctx = record no_call { success = true; done = true; resumer = some 7; resumed = 7 ∷ [] };
  write_ctx = record no_call { success = true; done = true; resumer = some 7; resumed = 7 ∷ [] };
  sent =
      create (record {
        key = 47 ∷ 97 ∷ [];
        range_end = some (47 ∷ 98 ∷ []);
        prev_kv = true;
        start_revision = 0;
        watch_id = 1;
      })
      ∷ [];
  handlers = [];
  looping = true;
}

opens_watch : watch_key opens true 7 (47 ∷ 97 ∷ []) true a_watcher ≡ ok (some created_watch)
unfolding watch_key watch Watch.await_write Watch.await_read
opens_watch = refl

watch_key-Watches_example : Watches opens (47 ∷ 97 ∷ []) 3 created_watch
watch_key-Watches_example =
    watch_key-Watches opens true 7 47 (97 ∷ []) a_watcher created_watch (omega arith) opens_watch
