-- ===== src/Etcd/Client.antt =====
-- EtcdClientV3 of content/etcdv3/etcd_client.h and .cc. The stubs of grpc are parameters: what a
-- call answers, as a function of the request. A call is made in a coroutine, which yields and goes
-- on only if the callback has resumed it (CallContext).
pub mod Setup
use ltapp.Base.{
  ℕ, ◌≡◌, refl, ap, ◌∙◌, ◌<◌, Bool, true, false, List, [], ◌∷◌, Option, none, some, if◌then◌else◌,
  arith, ◌==◌, ◌||◌,
}
use ltapp.Base.Int.{ℤ, pos, negsuc}
use ltapp.Etcd.CallContext
use ltapp.Etcd.CallContext.{CallContext}
use ltapp.Etcd.Prefix.{range_end, in_range, is_prefix, last_byte, range_end-prefix}
use mathlib.Core.Path.{fun_ext}

pub record KeyValue : Type 0 where
  pub key : List ℕ
  pub value : List ℕ
  pub lease : ℤ

pub record PutRequest : Type 0 where
  pub key : List ℕ
  pub value : List ℕ
  pub lease : ℤ

pub record RangeRequest : Type 0 where
  pub key : List ℕ
  pub range_end : List ℕ
  -- set_sort_target(KEY) and set_sort_order(ASCEND) were called.
  pub sort_by_key : Bool

-- grpc::Status with the response that the call filled in.
pub record Reply (R : Type 0) : Type 0 where
  pub ok : Bool
  pub response : R

-- The calls of KV::Stub and of Lease::Stub.
pub record KvStub : Type 0 where
  pub put : PutRequest → Reply ℤ  -- header().revision()
  pub range : RangeRequest → Reply (List KeyValue)

pub record LeaseStub : Type 0 where
  pub lease_grant : ℤ → Reply ℤ  -- ttl to id()
  pub time_to_live : ℤ → Reply ℤ  -- id to ttl()

-- ResponseCallContext: status_ is a default grpc::Status, which is OK, until somebody writes it.
pub record ResponseCallContext (R : Type 0) : Type 0 where
  pub call : CallContext
  pub status_ok : Bool
  pub response : Option R

unfoldable pub new_call : {R : Type 0} → ResponseCallContext R
unfolding CallContext.new
new_call = record { call = CallContext.new; status_ok = true; response = none }

unfoldable pub lock : {R : Type 0} → ℕ → ResponseCallContext R → ResponseCallContext R
unfolding CallContext.lock_context
lock co c = record c { call = (CallContext.lock_context co c.call).0 }

-- The call of the stub and its callback. That of Put stores the status, the others only pass its
-- ok() to ResumeContext.
unfoldable pub call_stub :
    {R : Type 0} → Bool → Reply R → ResponseCallContext R → ResponseCallContext R
unfolding CallContext.resume_context
call_stub stores_status r c = record {
  call = CallContext.resume_context r.ok c.call;
  status_ok = if stores_status then r.ok else c.status_ok;
  response = some r.response;
}

-- What the caller gets: a value, nothing since the coroutine that yields is never resumed, or the
-- undefined behaviour of the empty key with a prefix.
pub data Answer (A : Type 0) : Type 0 where
  answers : A → Answer A
  never_resumed : Answer A
  undefined : Answer A

abbrev pub is_in : ℕ → List ℕ → Bool
is_in co [] = false
is_in co (x ∷ xs) = x == co || is_in co xs

-- CO_YIELD of coroutine `co`, and the rest of the call.
unfoldable pub co_yield :
    {R A : Type 0} → ℕ → ResponseCallContext R → (ResponseCallContext R → A) → Answer A
co_yield co c rest = if is_in co c.call.resumed then answers (rest c) else never_resumed

abbrev pub response_or : {R : Type 0} → R → Option R → R
response_or d none = d
response_or d (some r) = r

-- Put(const PutRequest&)
unfoldable pub put : KvStub → ℕ → PutRequest → Answer ℤ
unfolding lock call_stub co_yield new_call
put stub co request =
    co_yield co (call_stub true (stub.put request) (lock co new_call))
      λ c. if c.status_ok then response_or (pos 0) c.response else negsuc 0

abbrev pub put_request : KeyValue → PutRequest
put_request kv = record { key = kv.key; value = kv.value; lease = kv.lease }

-- Put(const KeyValue&)
unfoldable pub put_key_value : KvStub → ℕ → KeyValue → Answer ℤ
unfolding put
put_key_value stub co kv = put stub co (put_request kv)

-- The request of Range; `none` for the empty key with a prefix.
unfoldable pub range_request : List ℕ → Bool → Option RangeRequest
unfolding range_end
range_request key with_prefix =
    if with_prefix
    then elim (range_end key) [
      | none ↦ none
      | some e ↦ some (record { key = key; range_end = e; sort_by_key = true })
    ]
    else some (record { key = key; range_end = []; sort_by_key = false })

unfoldable pub run_range : KvStub → ℕ → RangeRequest → Answer (List KeyValue)
unfolding lock call_stub co_yield new_call
run_range stub co request =
    co_yield co (call_stub false (stub.range request) (lock co new_call))
      λ c. if c.status_ok then response_or [] c.response else []

unfoldable pub range : KvStub → ℕ → List ℕ → Bool → Answer (List KeyValue)
unfolding range_request run_range
range stub co key with_prefix = elim (range_request key with_prefix) [
  | none ↦ undefined
  | some request ↦ run_range stub co request
]

unfoldable pub lease_grant : LeaseStub → ℕ → ℤ → Answer ℤ
unfolding lock call_stub co_yield new_call
lease_grant stub co ttl =
    co_yield co (call_stub false (stub.lease_grant ttl) (lock co new_call))
      λ c. response_or (pos 0) c.response

-- There is no LockContext here.
unfoldable pub time_to_alive : LeaseStub → ℕ → ℤ → Answer ℤ
unfolding call_stub co_yield new_call
time_to_alive stub co id =
    co_yield co (call_stub false (stub.time_to_live id) new_call)
      λ c. response_or (pos 0) c.response

-- Put goes on once the reply is there and tells failure from success: it gives the revision of
-- a reply that is OK, and -1 otherwise.
pub put_key_value-result :
    (stub : KvStub) (co : ℕ) (kv : KeyValue)
    → put_key_value stub co kv
      ≡ answers (
          if (stub.put (put_request kv)).ok then (stub.put (put_request kv)).response else negsuc 0)
unfolding put_key_value put lock call_stub co_yield new_call
put_key_value-result stub co kv = ground arith

-- LeaseGrant goes on and gives the response's id, whatever the status is. TimeToAlive does not
-- register its coroutine, so that it is never resumed, whatever the server replies.
pub lease_grant-time_to_alive :
    (stub : LeaseStub) (co : ℕ) (ttl id : ℤ)
    → (lease_grant stub co ttl ≡ answers (stub.lease_grant ttl).response)
      × (time_to_alive stub co id ≡ never_resumed)
unfolding lease_grant time_to_alive
lease_grant-time_to_alive stub co ttl id = (ground arith, refl)

pub run_range-answers :
    (stub : KvStub) (co : ℕ) (r : RangeRequest)
    → run_range stub co r ≡ answers (stub.range r).response
unfolding run_range
run_range-answers stub co r = ground arith

-- The pairs whose key passes a test.
unfoldable pub select : (List ℕ → Bool) → List KeyValue → List KeyValue
select p [] = []
select p (kv ∷ kvs) = if p kv.key then kv ∷ select p kvs else select p kvs

select-ext :
    (p q : List ℕ → Bool)
    → ((k : List ℕ) → p k ≡ q k)
    → (kvs : List KeyValue) → select p kvs ≡ select q kvs
select-ext p q h kvs = ap (λ f. select f kvs) (fun_ext h)

-- With a server that answers a range with those of its pairs that lie in it, Range with a
-- prefix, whose last byte is below 255, gives the pairs whose key has the prefix: all of them
-- and no others, in the server's order.
pub range-prefix :
    (stub : KvStub) (co b : ℕ) (bs : List ℕ) (held : List KeyValue)
    → ((r : RangeRequest) → (stub.range r).response ≡ select (in_range r.key r.range_end) held)
    → last_byte b bs < 255
    → range stub co (b ∷ bs) true ≡ answers (select (is_prefix (b ∷ bs)) held)
unfolding range range_request range_end
range-prefix stub co b bs held serves l =
    run_range-answers stub co _
    ∙ ap answers (serves _ ∙ select-ext _ _ (range_end-prefix b bs _ l refl) held)

-- Where Range makes a request, it gives the pairs of the response whether the call succeeded
-- or failed.
range-ignores_status :
    (stub : KvStub) (co : ℕ) (key : List ℕ) (b : Bool) (request : RangeRequest)
    → range_request key b ≡ some request
    → range stub co key b ≡ answers (stub.range request).response
unfolding range
range-ignores_status stub co key b request h = rw (h, range) (run_range-answers stub co request)
