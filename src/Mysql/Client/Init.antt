-- ===== src/Mysql/Client/Init.antt =====
-- InitWithOption (mysql_client_impl.cc) makes a client whose connections are in their loops.
use ltapp.Base.{
  append-nil, append_assoc, List, ℕ, zero, suc, ◌+◌, ◌<◌, ◌≡◌, refl, sym, ap, subst, ◌∙◌, Bool,
  true, [], ◌∷◌, ◌++◌, arith, length, length-append, inl, inr, Bool-cases,
}
use ltapp.Outcome.{ok, Ensures, Ensures-map, Ensures-ok, holds, stops}
use ltapp.Mysql.Api.{MysqlApi, MysqlOptions}
use ltapp.Mysql.Conn.{Conn}
use ltapp.Mysql.Conn.Entry.{new, init_connection, sync_connect}
use ltapp.Mysql.Methods.{sync_connect-Inv}
use ltapp.Mysql.Client.{Client, Garbage, init_rounds, init_with_option}
use ltapp.Mysql.Client.Work.Places.{left, held, whereabouts}
use ltapp.Mysql.Client.Sound.{AllInv, AllFor, AllInv-append, Sound}

held-append :
    {M : Type 0} (cs : List (Conn M)) (c : Conn M) → held (cs ++ c ∷ []) ≡ held cs ++ left c
held-append [] c = append-nil (left c)
held-append (x ∷ cs) c =
    ap (λ qs. left x ++ qs) (held-append cs c) ∙ sym (append_assoc (left x) (held cs) (left c))

module _ {M : Type 0} (api : MysqlApi M) (g : Garbage M) (o : MysqlOptions) where
  -- What the rounds of InitWithOption add.
  record Started (n : ℕ) (k k' : Client M) : Type 0 where
    connections : AllInv k'.connections
    as_many : length k'.connections ≡ length k.connections + n
    no_tasks : k'.tasks ≡ k.tasks
    no_queries : held k'.connections ≡ held k.connections
    same_store : k'.store ≡ k.store

  abbrev attempt : Conn M × Bool
  attempt =
      sync_connect api (init_connection api o (new true g.handle g.err_no g.state g.option true))

  sync_connect-left : (c : Conn M) → left (sync_connect api c).0 ≡ left c
  unfolding sync_connect
  sync_connect-left c = elim (Bool-cases (api.real_connect c.option c.mysql).0) [
    | inl e ↦ rw (e, sync_connect) refl
    | inr e ↦ rw (e, sync_connect) refl
  ]

  attempt-left : left attempt.0 ≡ []
  unfolding init_connection new
  attempt-left =
      sync_connect-left (init_connection api o (new true g.handle g.err_no g.state g.option true))

  init_rounds-Started :
      (n : ℕ) (k : Client M)
      → AllInv k.connections
      → Ensures (Started n k) (init_rounds api g o n k)
  unfolding init_rounds
  init_rounds-Started zero k v = holds (record {
    connections = v;
    as_many = omega arith;
    no_tasks = refl;
    no_queries = refl;
    same_store = refl;
  })
  init_rounds-Started (suc n) k v = elim (Bool-cases attempt.1) [
    | inl e ↦
        rw (e, init_rounds)
          (Ensures-map (λ k' s. started k k' s)
            (init_rounds-Started n (record k { connections = k.connections ++ attempt.0 ∷ [] })
              (AllInv-append k.connections (attempt.0 ∷ []) v
                (sync_connect-Inv api true g.handle g.err_no g.state o g.option e, tt))))
    | inr e ↦ rw (e, init_rounds) stops
  ]
    where
      started :
          (k k' : Client M)
          → Started n (record k { connections = k.connections ++ attempt.0 ∷ [] }) k'
          → Started (suc n) k k'
      started k k' s = record {
        connections = s.connections;
        as_many = omega (arith, s.as_many, length-append k.connections (attempt.0 ∷ []));
        no_tasks = s.no_tasks;
        no_queries =
            s.no_queries
            ∙ held-append k.connections attempt.0
            ∙ ap (λ qs. held k.connections ++ qs) attempt-left
            ∙ append-nil (held k.connections);
        same_store = s.same_store;
      }

  -- A new client that is to have connections at least one and whose InitWithOption does not
  -- stop the process has as many connections as it was told, all of them in their loops,
  -- whatever the members that the connections' constructor leaves unset hold.
  pub init_with_option-Sound :
      (k k' : Client M)
      → k.connections ≡ []
      → k.tasks ≡ []
      → 0 < k.count
      → init_with_option api g o k ≡ ok k'
      → (length k'.connections ≡ k.count) × Sound k'
  unfolding init_with_option
  init_with_option-Sound k k' c t p h =
      let s : Started k.count k k' =
        Ensures-ok (init_rounds-Started k.count k (subst AllInv (sym c) tt)) h in
      let as_many : length k'.connections ≡ k.count =
        s.as_many ∙ ap (λ cs. length cs + k.count) c ∙ omega arith in
      (
        as_many,
        record {
          connections = s.connections;
          tasks = subst (AllFor (length k'.connections)) (sym (s.no_tasks ∙ t)) tt;
          has_one = omega (arith, as_many);
        },
      )

  -- InitWithOption, where it does not stop the process, gives the client no queries and takes
  -- none away.
  pub init_with_option-whereabouts :
      (k k' : Client M)
      → k.connections ≡ []
      → init_with_option api g o k ≡ ok k'
      → whereabouts k' ≡ whereabouts k
  unfolding init_with_option
  init_with_option-whereabouts k k' c h =
      let s : Started k.count k k' =
        Ensures-ok (init_rounds-Started k.count k (subst AllInv (sym c) tt)) h in
      rw (s.same_store, s.no_queries, s.no_tasks) refl
