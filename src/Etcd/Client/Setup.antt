-- ===== src/Etcd/Client/Setup.antt =====
-- The life of an EtcdClientV3 (content/etcdv3/etcd_client.cc): its channel and stubs, which are null
-- until Initilize, and its calls through them. grpc's channels and stubs are parameters; a null
-- pointer that is followed is `abort`.
use ltapp.Base.{ℕ, ◌≡◌, refl, Bool, List, Option, none, some, String}
use ltapp.Base.Int.{ℤ}
use ltapp.Outcome.{Outcome, ok, check_some, Ensures, Ensures-check, Ensures-ok, holds}
use ltapp.Etcd.Client.{
  Answer, KeyValue, PutRequest, KvStub, LeaseStub, put, put_key_value, range, lease_grant,
  time_to_alive,
}

pub record EtcdClientV3 (Channel : Type 0) : Type 0 where
  pub channel : Option Channel
  pub kv_stub : Option KvStub
  pub lease_stub : Option LeaseStub

module _ {Channel : Type 0} where
  unfoldable pub new : EtcdClientV3 Channel
  new = record { channel = none; kv_stub = none; lease_stub = none }

  -- Finalize, which the destructor calls.
  unfoldable pub finalize : EtcdClientV3 Channel → EtcdClientV3 Channel
  finalize c = c

  unfoldable pub put_on : ℕ → PutRequest → EtcdClientV3 Channel → Outcome (Answer ℤ)
  put_on co request c = check_some c.kv_stub λ stub. ok (put stub co request)

  unfoldable pub put_key_value_on : ℕ → KeyValue → EtcdClientV3 Channel → Outcome (Answer ℤ)
  put_key_value_on co kv c = check_some c.kv_stub λ stub. ok (put_key_value stub co kv)

  unfoldable pub range_on :
      ℕ → List ℕ → Bool → EtcdClientV3 Channel → Outcome (Answer (List KeyValue))
  range_on co key with_prefix c = check_some c.kv_stub λ stub. ok (range stub co key with_prefix)

  unfoldable pub lease_grant_on : ℕ → ℤ → EtcdClientV3 Channel → Outcome (Answer ℤ)
  lease_grant_on co ttl c = check_some c.lease_stub λ stub. ok (lease_grant stub co ttl)

  unfoldable pub time_to_alive_on : ℕ → ℤ → EtcdClientV3 Channel → Outcome (Answer ℤ)
  time_to_alive_on co id c = check_some c.lease_stub λ stub. ok (time_to_alive stub co id)

module _ {Channel : Type 0} (create_channel : String → Option Channel)
    (new_kv_stub : Channel → Option KvStub) (new_lease_stub : Channel → Option LeaseStub) where
  unfoldable pub initilize : String → EtcdClientV3 Channel → Outcome (EtcdClientV3 Channel)
  initilize addr c = check_some (create_channel addr) λ channel.
      check_some (new_kv_stub channel) λ kv.
        check_some (new_lease_stub channel) λ lease.
          ok (record { channel = some channel; kv_stub = some kv; lease_stub = some lease })

  -- A client whose calls all go to the stubs of one channel, that of an address.
  pub record Connected (addr : String) (c : EtcdClientV3 Channel) : Type 0 where
    pub channel : Channel
    pub kv : KvStub
    pub lease : LeaseStub
    pub of_address : create_channel addr ≡ some channel
    pub of_kv : new_kv_stub channel ≡ some kv
    pub of_lease : new_lease_stub channel ≡ some lease
    pub puts : (co : ℕ) (kvs : KeyValue) → put_key_value_on co kvs c ≡ ok (put_key_value kv co kvs)
    pub ranges : (co : ℕ) (key : List ℕ) (b : Bool) → range_on co key b c ≡ ok (range kv co key b)
    pub grants : (co : ℕ) (ttl : ℤ) → lease_grant_on co ttl c ≡ ok (lease_grant lease co ttl)

  -- When Initilize returns, all calls of the client go to stubs of the one channel that was made for
  -- the address, whatever the client was connected to before.
  pub initilize-Connected :
      (addr : String) (c c' : EtcdClientV3 Channel) → initilize addr c ≡ ok c' → Connected addr c'
  unfolding initilize check_some put_key_value_on range_on lease_grant_on
  initilize-Connected addr c c' h = Ensures-ok connected h
    where
      connected : Ensures (Connected addr) (initilize addr c)
      connected = Ensures-check λ channel e. Ensures-check λ kv f. Ensures-check λ lease g.
          holds (record {
            channel = channel;
            kv = kv;
            lease = lease;
            of_address = e;
            of_kv = f;
            of_lease = g;
            puts = λ co kvs. refl;
            ranges = λ co key b. refl;
            grants = λ co ttl. refl;
          })
