-- ===== src/Etcd/Server/Memory.antt =====
-- A server that keeps its pairs in a list: it meets the laws that are asked of a server.
use ltapp.Base.{
  ℕ, ◌≡◌, ◌≢◌, ◌↔◌, ap, sym, subst, ◌∙◌, Bool, true, List, [], ◌∷◌, if◌then◌else◌, Bool-cases, inl,
  inr,
}
use ltapp.Base.Int.{pos}
use ltapp.Etcd.Prefix.{key_eq, key_eq_refl, key_eq-eq, in_range}
use ltapp.Etcd.Client.{KeyValue, select}
use ltapp.Etcd.Server.{In, KvServer, IsEtcd, pair_of}

abbrev drop_key : List ℕ → List KeyValue → List KeyValue
drop_key k [] = []
drop_key k (kv ∷ kvs) = if key_eq kv.key k then drop_key k kvs else kv ∷ drop_key k kvs

abbrev pub memory : KvServer (List KeyValue)
memory = record {
  put = λ r s. (pair_of r ∷ drop_key r.key s, record { ok = true; response = pos 1 });
  range = λ r s. record { ok = true; response = select (in_range r.key r.range_end) s };
}

pub In-drop_key :
    (k : List ℕ) (s : List KeyValue) (x : KeyValue) → In x (drop_key k s) ↔ (In x s × (x.key ≢ k))
In-drop_key k [] x = (λ m. elim m [ ], λ m. m.0)
In-drop_key k (kv ∷ kvs) x = elim (Bool-cases (key_eq kv.key k)) [
  | inl same ↦ rw same (
    λ m. (inr ((In-drop_key k kvs x).0 m).0, ((In-drop_key k kvs x).0 m).1),
    λ m. elim m.0 [
      | inl e ↦ absurd (m.1 (sym (ap (λ p. p.key) e) ∙ key_eq-eq kv.key k same))
      | inr later ↦ (In-drop_key k kvs x).1 (later, m.1)
    ],
  )
  | inr other ↦ rw other (
    λ m. elim m [
      | inl e ↦ (
        inl e,
        λ q.
            let held : key_eq kv.key k ≡ true =
              subst (λ l. key_eq l k ≡ true) (sym (ap (λ y. y.key) e ∙ q)) (key_eq_refl k) in
            absurd (cc),
      )
      | inr later ↦ (inr ((In-drop_key k kvs x).0 later).0, ((In-drop_key k kvs x).0 later).1)
    ],
    λ m. elim m.0 [ inl e ↦ inl e | inr later ↦ inr ((In-drop_key k kvs x).1 (later, m.1)) ],
  )
]

pub In-select :
    (p : List ℕ → Bool) (s : List KeyValue) (x : KeyValue)
    → In x (select p s) ↔ (In x s × (p x.key ≡ true))
unfolding select
In-select p [] x = (λ m. elim m [ ], λ m. m.0)
In-select p (kv ∷ kvs) x = elim (Bool-cases (p kv.key)) [
  | inl yes' ↦ rw yes' (
    λ m. elim m [
      | inl e ↦ (inl e, subst (λ y. p y.key ≡ true) e yes')
      | inr later ↦ (inr ((In-select p kvs x).0 later).0, ((In-select p kvs x).0 later).1)
    ],
    λ m. elim m.0 [ inl e ↦ inl e | inr later ↦ inr ((In-select p kvs x).1 (later, m.1)) ],
  )
  | inr no' ↦ rw no' (
    λ m. (inr ((In-select p kvs x).0 m).0, ((In-select p kvs x).0 m).1),
    λ m. elim m.0 [
      | inl e ↦
          let moved : p kv.key ≡ p x.key = ap (λ y. p y.key) e in
          let given : p x.key ≡ true = m.1 in absurd (cc)
      | inr later ↦ (In-select p kvs x).1 (later, m.1)
    ],
  )
]

unfoldable pub memory_laws : IsEtcd memory
memory_laws = record {
  Stored = In;
  puts = λ r s up kv. (
    λ m. elim m [ inl e ↦ inl (sym e) | inr later ↦ inr ((In-drop_key r.key s kv).0 later) ],
    λ m. elim m [ inl e ↦ inl (sym e) | inr later ↦ inr ((In-drop_key r.key s kv).1 later) ],
  );
  ranges = λ r s kv. In-select (in_range r.key r.range_end) s kv;
}
