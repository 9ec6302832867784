-- ===== src/Examples/EtcdTest/Nodes.antt =====
-- What PusKeyEvery of examples/etcdclient/test_client.cc lists.
use ltapp.Base.{
  ℕ, zero, suc, ◌<◌, ◌≡◌, ◌≢◌, refl, ap, ◌∙◌, true, List, [], ◌∷◌, ◌++◌, inl, inr, arith,
}
use ltapp.Base.Int.{ℤ}
use native.Mathlib.Decide.{dec_lt}
use ltapp.Etcd.Prefix.{is_prefix}
use ltapp.Etcd.Client.{KeyValue, answers, put_request, PutRequest, put_key_value-result}
use ltapp.Etcd.Server.{In, KvServer, IsEtcd, stub_at, after_put, range-Stored}
use ltapp.Examples.EtcdTest.{◌>>=◌, server_dir, nodes_dir, node, put_nodes, push_nodes}

-- Concat writes the number behind the text, different numbers in different ways.
pub record Joins (concat : List ℕ → ℕ → List ℕ) : Type 0 where
  pub digits : ℕ → List ℕ
  pub joins : (t : List ℕ) (n : ℕ) → concat t n ≡ t ++ digits n
  pub apart : (t : List ℕ) (n m : ℕ) → concat t n ≡ concat t m → n ≡ m

module _ {S : Type 0} (concat : List ℕ → ℕ → List ℕ) (j : Joins concat) (server : KvServer S)
    (e : IsEtcd server) (accepts : (r : PutRequest) (s : S) → (server.put r s).1.ok ≡ true) where
  -- The server after the puts.
  abbrev settled : ℤ → ℕ → S → S
  settled id zero s = s
  settled id (suc cnt) s = settled id cnt (after_put server (node concat id cnt) s)

  put_nodes-settled :
      (co : ℕ) (id : ℤ) (cnt : ℕ) (s : S)
      → put_nodes concat server co id cnt s ≡ answers (settled id cnt s)
  unfolding put_nodes
  put_nodes-settled co id zero s = refl
  put_nodes-settled co id (suc cnt) s =
      ap
        (λ a.
          a >>= λ _. put_nodes concat server co id cnt (after_put server (node concat id cnt) s))
        (put_key_value-result (stub_at server s) co (node concat id cnt))
      ∙ put_nodes-settled co id cnt (after_put server (node concat id cnt) s)

  -- The puts keep what is stored under other keys.
  settled-keeps :
      (id : ℤ) (cnt : ℕ) (s : S) (x : KeyValue)
      → ((i : ℕ) → i < cnt → x.key ≢ concat nodes_dir i)
      → e.Stored x s
      → e.Stored x (settled id cnt s)
  settled-keeps id zero s x h st = st
  settled-keeps id (suc cnt) s x h st =
      settled-keeps id cnt _ x (λ i l. h i (omega arith))
        ((e.puts (put_request (node concat id cnt)) s (accepts _ s) x).1
          (inr (st, h cnt (omega arith))))

  settled-has :
      (id : ℤ) (cnt i : ℕ) (s : S) → i < cnt → e.Stored (node concat id i) (settled id cnt s)
  settled-has id zero i s l = elim l [ ]
  settled-has id (suc cnt) i s l = elim (dec_lt i cnt) [
    | yes m ↦ settled-has id cnt i _ m
    | no n ↦
        let same : i ≡ cnt = omega arith in
        rw same (
          settled-keeps id cnt _ (node concat id cnt)
            (λ k m q. absurd (lt_irrefl (j.apart nodes_dir cnt k q) m))
            ((e.puts (put_request (node concat id cnt)) s (accepts _ s) (node concat id cnt)).1
              (inl refl)))
  ]
    where
      lt_irrefl : {n k : ℕ} → n ≡ k → k < n → ⊥
      lt_irrefl q m = omega arith

  -- A node's key stands under "/server".
  node-prefix : (id : ℤ) (i : ℕ) → is_prefix server_dir (node concat id i).key ≡ true
  unfolding is_prefix
  node-prefix id i = rw (j.joins nodes_dir i) refl

  -- The puts come to their list, which has each node that was put.
  pub push_nodes-lists :
      (co : ℕ) (id : ℤ) (cnt : ℕ) (s : S)
      → (s' : S) × (kvs : List KeyValue) × (push_nodes concat server co id cnt s
          ≡ answers (s', kvs))
        × ((i : ℕ) → i < cnt → In (node concat id i) kvs)
  unfolding push_nodes
  push_nodes-lists co id cnt s =
      let (kvs, answer, stored) =
        range-Stored server e (settled id cnt s) co b'/'
          (b's' ∷ b'e' ∷ b'r' ∷ b'v' ∷ b'e' ∷ b'r' ∷ []) (omega arith) in
      (
        settled id cnt s,
        kvs,
        rw (put_nodes-settled co id cnt s, answer) refl,
        λ i l. (stored _).1 (settled-has id cnt i s l, node-prefix id i),
      )
