-- ===== src/Examples/EtcdTest/Cases.antt =====
-- main of examples/etcdclient/test_client.cc, which starts one of the two test cases, and the handler
-- OnNodeChange. grpc's channels and stubs are parameters.
use ltapp.Base.{◌≡◌, refl, List, [], ◌∷◌, Option, none, some, String, str_eq, if◌then◌else◌}
use ltapp.Outcome.{Outcome, ok, abort, ◌>>=◌}
use ltapp.Etcd.Client.{KeyValue, KvStub, LeaseStub}
use ltapp.Etcd.Client.Setup
use ltapp.Etcd.Client.Setup.{EtcdClientV3, initilize, Connected, initilize-Connected}

-- mvccpb::Event_EventType, where `other` is a number that the enum does not name.
pub data EventType : Type 0 where
  put delete other : EventType

-- OnNodeChange: what is logged.
unfoldable pub on_node_change : EventType → KeyValue → Option (String × KeyValue)
on_node_change put kv = some ("Put", kv)
on_node_change delete kv = some ("Del", kv)
on_node_change other kv = none

pub data Case : Type 0 where
  watches keeps_alive : Case

unfoldable pub case_of : String → Option Case
case_of name =
    if str_eq name "watch"
    then some watches
    else (if str_eq name "keepalive" then some keeps_alive else none)

-- A case with the client that it is run with.
abbrev starts :
    {Channel : Type 0} → EtcdClientV3 Channel → Option Case → Option (EtcdClientV3 Channel × Case)
starts client none = none
starts client (some c) = some (client, c)

module _ {Channel : Type 0} (create_channel : String → Option Channel)
    (new_kv_stub : Channel → Option KvStub) (new_lease_stub : Channel → Option LeaseStub) where
  -- main with its arguments: the client and the case that is started, or `none` where the process
  -- exits with -1.
  unfoldable pub main : List String → Outcome (Option (EtcdClientV3 Channel × Case))
  unfolding case_of Setup.new
  main (name ∷ []) = do
    client ← initilize create_channel new_kv_stub new_lease_stub "localhost:2379" Setup.new
    ok (starts client (case_of name))
  main _ = ok none

  -- Where a case is started, it was named by the one argument, and the client's calls all go to
  -- stubs of one channel to localhost:2379.
  main-Connected :
      (args : List String) (client : EtcdClientV3 Channel) (c : Case)
      → main args ≡ ok (some (client, c))
      → (name : String) × (args ≡ name ∷ [])
        × (case_of name ≡ some c)
        × Connected create_channel new_kv_stub new_lease_stub "localhost:2379" client
  unfolding main
  main-Connected [] client c h = cc
  main-Connected (name ∷ _ ∷ _) client c h = cc
  main-Connected (name ∷ []) client c h =
      go (initilize create_channel new_kv_stub new_lease_stub "localhost:2379" Setup.new) refl
        (case_of name) refl h
    where
      go :
          (o : Outcome (EtcdClientV3 Channel))
          → initilize create_channel new_kv_stub new_lease_stub "localhost:2379" Setup.new ≡ o
          → (n : Option Case) → case_of name ≡ n
          → (o >>= λ k. ok (starts k n)) ≡ ok (some (client, c))
          → (x : String) × ((name ∷ []) ≡ x ∷ [])
            × (case_of x ≡ some c)
            × Connected create_channel new_kv_stub new_lease_stub "localhost:2379" client
      go abort e n f g = cc
      go (ok k) e none f g = cc
      go (ok k) e (some d) f g = (
        name,
        refl,
        cc,
        initilize-Connected create_channel new_kv_stub new_lease_stub "localhost:2379" Setup.new
            client (cc),
      )
