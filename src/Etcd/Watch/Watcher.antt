-- ===== src/Etcd/Watch/Watcher.antt =====
-- EtcdWatcher of content/etcdv3/etcd_watcher.h and .cc: watches on one stub. The stub, and what the
-- stream that it opens answers to the first write and the first read, are parameters.
use ltapp.Base.{ℕ, ◌<◌, ◌≡◌, refl, Bool, true, false, List, [], ◌∷◌, Option, some, if◌then◌else◌}
use ltapp.Outcome.{Outcome, ok, abort, check_some}
use ltapp.Etcd.Prefix.{range_end, raise_last, in_range, is_prefix, last_byte, range_end-prefix}
use ltapp.Etcd.Client.Setup.{EtcdClientV3}
use ltapp.Etcd.Watch.Created.{watch-created, watch-sent, watch-fresh}
use ltapp.Etcd.Watch.{CreateRequest, create, WatchResponse, WatchContext, watch_request, watch}

-- What a stream answers: to the write of the request, and to the read after it.
pub record Opening : Type 0 where
  pub write_ok : Bool
  pub read_ok : Bool
  pub response : WatchResponse

pub record EtcdWatcher (Channel WatchStub : Type 0) : Type 0 where
  pub client : EtcdClientV3 Channel
  pub stub : WatchStub

module _ {Channel WatchStub : Type 0} (new_stub : Option Channel → Option WatchStub) where
  -- The constructor.
  unfoldable pub new : EtcdClientV3 Channel → Outcome (EtcdWatcher Channel WatchStub)
  unfolding check_some
  new client =
      check_some (new_stub client.channel) λ stub. ok (record { client = client; stub = stub })

module _ {WatchStub : Type 0} (opening : WatchStub → CreateRequest → Opening) where
  -- A watch that the server created for exactly the keys with a prefix.
  pub record Watches (key : List ℕ) (stub : WatchStub) (w : WatchContext) : Type 0 where
    pub request : CreateRequest
    pub end : List ℕ
    pub sends : w.sent ≡ create request ∷ []
    pub of_key : request.key ≡ key
    pub of_end : request.range_end ≡ some end
    pub covers : (k : List ℕ) → in_range request.key end k ≡ is_prefix key k
    pub created : (opening stub request).response.created ≡ true
    pub looping : w.looping ≡ true
    pub no_events : w.handlers ≡ []
    pub reads_on : w.read_ctx.cancel ≡ false

module _ {Channel WatchStub : Type 0} (opening : WatchStub → CreateRequest → Opening) where
  -- Watch(request, callback), where CO_CANYIELD is `can_yield`.
  unfoldable pub watch_on :
      Bool → ℕ → CreateRequest → EtcdWatcher Channel WatchStub → Outcome (Option WatchContext)
  watch_on can_yield co request w =
      let o = opening w.stub request in
      if can_yield then watch co request o.write_ok o.read_ok o.response else abort

  -- Watch(key, with_prefix, callback); the empty key with a prefix is undefined, and `abort` here.
  unfoldable pub watch_key :
      Bool → ℕ → List ℕ → Bool → EtcdWatcher Channel WatchStub → Outcome (Option WatchContext)
  unfolding watch_request watch_on check_some
  watch_key can_yield co key with_prefix w =
      check_some (watch_request key with_prefix) λ request. watch_on can_yield co request w

  -- Where Watch of a key with the prefix flag gives a context, for a key whose last byte is
  -- below 255, the one thing that was sent is a request for exactly the keys that have the
  -- key as a prefix, the server has created the watch, and the context's loop was started.
  pub watch_key-Watches :
      (can_yield : Bool) (co b : ℕ) (bs : List ℕ) (w : EtcdWatcher Channel WatchStub)
      (context : WatchContext)
      → last_byte b bs < 255
      → watch_key can_yield co (b ∷ bs) true w ≡ ok (some context)
      → Watches opening (b ∷ bs) w.stub context
  unfolding watch_key watch_on watch_request range_end
  watch_key-Watches false co b bs w context l h = absurd (cc)
  watch_key-Watches true co b bs w context l h =
      let request : CreateRequest = record {
        key = b ∷ bs;
        range_end = some (raise_last b bs);
        prev_kv = true;
        start_revision = 0;
        watch_id = 1;
      } in
      let o = opening w.stub request in
      let ((_, _, made, _), _, loops) =
        watch-created co request o.write_ok o.read_ok o.response context h in
      record {
        request = request;
        end = raise_last b bs;
        sends = watch-sent co request o.write_ok o.read_ok o.response context h;
        of_key = refl;
        of_end = refl;
        covers = range_end-prefix b bs (raise_last b bs) l refl;
        created = made;
        looping = loops;
        no_events = (watch-fresh co request o.write_ok o.read_ok o.response context h).0;
        reads_on = (watch-fresh co request o.write_ok o.read_ok o.response context h).1;
      }
