-- ===== src/Etcd/Tests.antt =====
-- Calls of an etcd server on concrete keys, replies and servers, and the theorems at them.
use ltapp.Base.{◌≡◌, ◌≢◌, ◌↔◌, ◌⊎◌, refl, Bool, true, false, List, [], ◌∷◌, some, arith}
use ltapp.Base.Int.{pos}
use ltapp.Etcd.CallContext
use ltapp.Etcd.CallContext.{CallContext}
use ltapp.Etcd.Race
use ltapp.Etcd.Race.{Pair, Reach, no_lost_wakeup}
use ltapp.Etcd.Prefix.{range_end, in_range, is_prefix, range_end-empty}
use ltapp.Etcd.Client.{
  put_key_value-result, KeyValue, RangeRequest, KvStub, answers, range, select, range_request,
  range-prefix,
}
use ltapp.Etcd.Server.{In, stub_at, after_put, put-range, put-get}
use ltapp.Etcd.Server.Memory.{memory, memory_laws}

-- A waiter that yields before the reply comes.
abbrev at_end : Pair
at_end = record {
  waiter = Race.yielded;
  resumer = Race.resumed_waiter;
  context = record {
    success = true;
    cancel = false;
    done = true;
    resumer = some 7;
    resumed = 7 ∷ [];
  };
}

yields_first : Reach 7 true Race.start at_end
unfolding CallContext.set_resumer CallContext.finish_call CallContext.run_resumer
yields_first =
    Race.next
      (Race.next
        (Race.next (Race.next Race.here (Race.lock refl refl)) (Race.yield_co refl refl refl))
        (Race.finish refl refl))
      (Race.resume refl refl)

no_lost_wakeup_example : (at_end.context.resumed ≡ 7 ∷ []) × (at_end.context.success ≡ true)
no_lost_wakeup_example = no_lost_wakeup 7 true at_end yields_first refl refl

-- "/a" is asked for as the range up to "/b".
slash_a : range_end (47 ∷ 97 ∷ []) ≡ some (47 ∷ 98 ∷ [])
unfolding range_end
slash_a = refl

wraps : range_end (47 ∷ 255 ∷ []) ≡ some (47 ∷ 0 ∷ [])
unfolding range_end
wraps = refl

range_end-empty_example : in_range (47 ∷ 255 ∷ []) (47 ∷ 0 ∷ []) (47 ∷ 255 ∷ []) ≡ false
range_end-empty_example = range_end-empty 47 255 [] (47 ∷ 0 ∷ []) refl wraps (47 ∷ 255 ∷ [])

abbrev kv_a : KeyValue
kv_a = record { key = 47 ∷ 97 ∷ 49 ∷ []; value = 1 ∷ []; lease = pos 0 }

abbrev kv_b : KeyValue
kv_b = record { key = 47 ∷ 98 ∷ []; value = 2 ∷ []; lease = pos 0 }

-- A server that holds two pairs, and refuses calls without changing its answers if `up` is false.
abbrev server : Bool → KvStub
server up = record {
  put = λ r. record { ok = up; response = pos 5 };
  range =
      λ r. record { ok = up; response = select (in_range r.key r.range_end) (kv_a ∷ kv_b ∷ []) };
}

range-prefix_example :
    range (server true) 7 (47 ∷ 97 ∷ []) true
    ≡ answers (select (is_prefix (47 ∷ 97 ∷ [])) (kv_a ∷ kv_b ∷ []))
range-prefix_example =
    range-prefix (server true) 7 47 (97 ∷ []) (kv_a ∷ kv_b ∷ []) (λ r. refl) (omega arith)

abbrev range_of_a : RangeRequest
range_of_a = record { key = 47 ∷ 97 ∷ []; range_end = 47 ∷ 98 ∷ []; sort_by_key = true }

asks : range_request (47 ∷ 97 ∷ []) true ≡ some range_of_a
unfolding range_request
asks = refl

-- A server that holds kv_b, after Put(kv_a).
put-range_example :
    (kvs : List KeyValue) × (range
        (stub_at memory (after_put memory kv_a (kv_b ∷ [])))
        8
        (47 ∷ 97 ∷ [])
        true
      ≡ answers kvs)
    × ((x : KeyValue)
        → In x kvs ↔ (
            ((x ≡ kv_a) ⊎ (In x (kv_b ∷ []) × (x.key ≢ kv_a.key)))
            × (is_prefix (47 ∷ 97 ∷ []) x.key ≡ true)))
unfolding memory_laws
put-range_example =
    put-range memory memory_laws (kv_b ∷ []) 7 8 kv_a (pos 1) 47 (97 ∷ [])
      (put_key_value-result (stub_at memory (kv_b ∷ [])) 7 kv_a) (λ e. cc) (omega arith)

put-get_example :
    (kvs : List KeyValue) × (range
        (stub_at memory (after_put memory kv_a (kv_b ∷ [])))
        8
        (47 ∷ 97 ∷ 49 ∷ [])
        false
      ≡ answers kvs)
    × ((x : KeyValue) → In x kvs ↔ (x ≡ kv_a))
put-get_example =
    put-get memory memory_laws (kv_b ∷ []) 7 8 kv_a (pos 1)
      (put_key_value-result (stub_at memory (kv_b ∷ [])) 7 kv_a) (λ e. cc)
