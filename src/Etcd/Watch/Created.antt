-- ===== src/Etcd/Watch/Created.antt =====
-- What EtcdWatcher::Watch (content/etcdv3/etcd_watcher.cc) leaves where it gives a context.
use ltapp.Base.{ℕ, ◌≡◌, Bool, true, false, [], ◌∷◌, some, arith}
use ltapp.Outcome.{ok}
use ltapp.Etcd.Watch.{
  create, CreateRequest, WatchResponse, WatchContext, watch, await_write, await_read, is_nonneg,
}

-- Where Watch gives a context, its write and its read succeeded and the server created the watch
-- under an id that is not negative; the context has that id, and its loop was started.
pub watch-created :
    (co : ℕ) (request : CreateRequest) (write_ok read_ok : Bool) (response : WatchResponse)
    (w : WatchContext)
    → watch co request write_ok read_ok response ≡ ok (some w)
    → ((write_ok ≡ true)
        × (read_ok ≡ true)
        × (response.created ≡ true)
        × (is_nonneg response.watch_id ≡ true))
      × (w.watch_id ≡ response.watch_id)
      × (w.looping ≡ true)
unfolding watch await_write await_read
watch-created co request write_ok read_ok response w h = ground arith

pub watch-sent :
    (co : ℕ) (request : CreateRequest) (write_ok read_ok : Bool) (response : WatchResponse)
    (w : WatchContext)
    → watch co request write_ok read_ok response ≡ ok (some w)
    → w.sent ≡ create request ∷ []
unfolding watch await_write await_read
watch-sent co request write_ok read_ok response w h = ground arith

pub watch-fresh :
    (co : ℕ) (request : CreateRequest) (write_ok read_ok : Bool) (response : WatchResponse)
    (w : WatchContext)
    → watch co request write_ok read_ok response ≡ ok (some w)
    → (w.handlers ≡ []) × (w.read_ctx.cancel ≡ false)
unfolding watch await_write await_read
watch-fresh co request write_ok read_ok response w h = ground arith
