-- ===== src/Etcd/Server.antt =====
-- What EtcdClientV3 (content/etcdv3/etcd_client.cc) promises of a server that keeps what it is given.
-- The server is not of this repository: it is a parameter, with its documented laws.
pub mod Memory
use ltapp.Base.{
  ℕ, ◌<◌, ◌≡◌, ◌≢◌, ◌↔◌, ◌⊎◌, refl, ap, sym, subst, ◌∙◌, Bool, true, false, List, [], ◌∷◌,
  if◌then◌else◌, arith, Bool-cases, inl, inr,
}
use ltapp.Base.Int.{ℤ, negsuc}
use ltapp.Etcd.Client.{
  KeyValue, PutRequest, RangeRequest, Reply, KvStub, Answer, answers, put_request, put_key_value,
  range, put_key_value-result, run_range-answers, run_range, range_request,
}
use ltapp.Etcd.Prefix.{
  key_eq, key_eq_refl, key_eq-eq, in_range, is_prefix, last_byte, range_end, range_end-prefix,
  raise_last,
}

-- An element of a list.
abbrev pub In : {A : Type 0} → A → List A → Type 0
In a [] = ⊥
In a (x ∷ xs) = (x ≡ a) ⊎ In a xs

-- A server: its state after a Put with the reply, and its reply to a Range.
pub record KvServer (S : Type 0) : Type 0 where
  pub put : PutRequest → S → S × Reply ℤ
  pub range : RangeRequest → S → Reply (List KeyValue)

abbrev pub pair_of : PutRequest → KeyValue
pair_of r = record { key = r.key; value = r.value; lease = r.lease }

-- A Put that succeeds replaces what was stored under its key, and nothing else; a Range gives what
-- is stored in it.
pub record IsEtcd {S : Type 0} (server : KvServer S) : Type 1 where
  pub Stored : KeyValue → S → Type 0
  pub puts :
      (r : PutRequest) (s : S)
      → (server.put r s).1.ok ≡ true
      → (kv : KeyValue)
      → Stored kv (server.put r s).0 ↔ ((kv ≡ pair_of r) ⊎ (Stored kv s × (kv.key ≢ r.key)))
  pub ranges :
      (r : RangeRequest) (s : S) (kv : KeyValue)
      → In kv (server.range r s).response
        ↔ (Stored kv s × (in_range r.key r.range_end kv.key ≡ true))

module _ {S : Type 0} where
  -- The calls of a client that reach the server in a state.
  abbrev pub stub_at : KvServer S → S → KvStub
  stub_at server s = record { put = λ r. (server.put r s).1; range = λ r. server.range r s }

  -- The server after Put(kv).
  abbrev pub after_put : KvServer S → KeyValue → S → S
  after_put server kv s = (server.put (put_request kv) s).0

module _ {S : Type 0} (server : KvServer S) (e : IsEtcd server) where
  -- Put's caller takes an answer other than -1 for a success, and it is one.
  put_succeeded :
      (s : S) (co : ℕ) (kv : KeyValue) (revision : ℤ)
      → put_key_value (stub_at server s) co kv ≡ answers revision
      → revision ≢ negsuc 0
      → (server.put (put_request kv) s).1.ok ≡ true
  put_succeeded s co kv revision h n = elim (Bool-cases (server.put (put_request kv) s).1.ok) [
    | inl y ↦ y
    | inr f ↦ absurd (n (ground (arith, put_key_value-result (stub_at server s) co kv)))
  ]

  -- A Range that makes a request gives what the server stores in its range.
  run_range-Stored :
      (s : S) (co : ℕ) (r : RangeRequest)
      → (kvs : List KeyValue) × (run_range (stub_at server s) co r ≡ answers kvs)
        × ((x : KeyValue) → In x kvs ↔ (e.Stored x s × (in_range r.key r.range_end x.key ≡ true)))
  run_range-Stored s co r =
      ((server.range r s).response, run_range-answers (stub_at server s) co r, e.ranges r s)

  -- Range with a prefix gives what the server stores under the prefix.
  pub range-Stored :
      (s : S) (co b : ℕ) (bs : List ℕ)
      → last_byte b bs < 255
      → (kvs : List KeyValue) × (range (stub_at server s) co (b ∷ bs) true ≡ answers kvs)
        × ((x : KeyValue) → In x kvs ↔ (e.Stored x s × (is_prefix (b ∷ bs) x.key ≡ true)))
  unfolding range range_request range_end
  range-Stored s co b bs l =
      let (kvs, answer, stored) =
        run_range-Stored s co
          (record { key = b ∷ bs; range_end = raise_last b bs; sort_by_key = true }) in
      (
        kvs,
        answer,
        λ x.
            subst (λ t. In x kvs ↔ (e.Stored x s × (t ≡ true)))
              (range_end-prefix b bs _ l refl x.key) (stored x),
      )

  -- With a server that keeps the pair of each Put that succeeds, in place of the one with
  -- its key, and that answers a range with the pairs in it: if Put of a pair answers
  -- anything but -1, then a Range with a prefix, whose last byte is below 255, answers with
  -- exactly the pair, if its key has the prefix, and those pairs under the prefix that were
  -- stored before with other keys.
  pub put-range :
      (s : S) (co co' : ℕ) (kv : KeyValue) (revision : ℤ) (b : ℕ) (bs : List ℕ)
      → put_key_value (stub_at server s) co kv ≡ answers revision
      → revision ≢ negsuc 0
      → last_byte b bs < 255
      → (kvs : List KeyValue) × (range (stub_at server (after_put server kv s)) co' (b ∷ bs) true
          ≡ answers kvs)
        × ((x : KeyValue)
            → In x kvs ↔ (
                ((x ≡ kv) ⊎ (e.Stored x s × (x.key ≢ kv.key))) × (is_prefix (b ∷ bs) x.key ≡ true)))
  put-range s co co' kv revision b bs h n l =
      let (kvs, answer, stored) = range-Stored (after_put server kv s) co' b bs l in
      let kept = e.puts (put_request kv) s (put_succeeded s co kv revision h n) in
      (
        kvs,
        answer,
        λ x. (
          λ m. ((kept x).0 ((stored x).0 m).0, ((stored x).0 m).1),
          λ m. (stored x).1 ((kept x).1 m.0, m.1),
        ),
      )

  -- With a server that keeps the pair of each Put that succeeds, in place of the one with
  -- its key, and that answers a range with the pairs in it: if Put of a pair answers
  -- anything but -1, then a Range of its key without a prefix answers with the pair and
  -- nothing else.
  pub put-get :
      (s : S) (co co' : ℕ) (kv : KeyValue) (revision : ℤ)
      → put_key_value (stub_at server s) co kv ≡ answers revision
      → revision ≢ negsuc 0
      → (kvs : List KeyValue) × (range (stub_at server (after_put server kv s)) co' kv.key false
          ≡ answers kvs)
        × ((x : KeyValue) → In x kvs ↔ (x ≡ kv))
  unfolding range range_request
  put-get s co co' kv revision h n =
      let (kvs, answer, stored) =
        run_range-Stored (after_put server kv s) co'
          (record { key = kv.key; range_end = []; sort_by_key = false }) in
      let kept = e.puts (put_request kv) s (put_succeeded s co kv revision h n) in
      (
        kvs,
        answer,
        λ x. (
          λ m. elim ((kept x).0 ((stored x).0 m).0) [
            | inl same ↦ same
            | inr (old, other) ↦ absurd (other (sym (key_eq-eq kv.key x.key ((stored x).0 m).1)))
          ],
          λ same. (stored x).1 (
            (kept x).1 (inl same),
            subst (λ y. key_eq kv.key y.key ≡ true) (sym same) (key_eq_refl kv.key),
          ),
        ),
      )
