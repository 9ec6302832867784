-- ===== src/Mysql/Client/Rotation.antt =====
-- The order in which get_client (mysql_client_impl.cc) chooses connections.
use ltapp.Base.{
  ℕ, zero, suc, ◌+◌, ◌%◌, ◌^◌, ◌<◌, ◌≡◌, ◌≢◌, sym, ap, ◌∙◌, true, Bool, Option, none, some, List,
  [], ◌∷◌, ◌++◌, arith, length, get_elem?, append-nil, append_assoc,
}
use native.Mathlib.Nat.{div-add-mod}
use ltapp.Outcome.{Outcome, ok, ◌>>=◌}
use ltapp.Mysql.Conn.{Conn}
use ltapp.Mysql.Client.{
  Client, Task, start_query_on, as_size, next_index, get_elem?-in, pending_query, get_client,
  dispatch_query, post,
}

module _ {M : Type 0} where
  -- Queries that are handed over one after the other.
  unfoldable pub pending_queries : Bool → List ℕ → Client M → Outcome (Client M)
  pending_queries in_loop [] k = ok k
  pending_queries in_loop (q ∷ qs) k = do
    k' ← pending_query in_loop q k
    pending_queries in_loop qs k'

  abbrev pub AllReady : List (Conn M) → Type 0
  AllReady [] = Unit {0}
  AllReady (c ∷ cs) = (c.ready ≡ true) × AllReady cs

  ready_at :
      (cs : List (Conn M)) (i : ℕ) (c : Conn M)
      → AllReady cs
      → get_elem? cs i ≡ some c
      → c.ready ≡ true
  ready_at [] i c r e = cc
  ready_at (x ∷ cs) zero c r e = ap ready_of (sym e) ∙ r.0
    where
      ready_of : Option (Conn M) → Bool
      ready_of none = true
      ready_of (some d) = d.ready
  ready_at (x ∷ cs) (suc i) c r e = ready_at cs i c r.1 e

-- The specification: of `n` connections, the next one for each query, after number `u`.
abbrev pub round_robin : ℕ → ℕ → List ℕ → List Task
round_robin n u [] = []
round_robin n u (q ∷ qs) = start_query_on ((u + 1) % n) q ∷ round_robin n (u + 1) qs

-- Of `n` positions in a row no two give the same connection.
pub round_robin_distinct : (n u i j : ℕ) → i < j → j < i + n → (u + i) % n ≢ (u + j) % n
round_robin_distinct n u i j l h e = grind (arith, div-add-mod (u + i) n, div-add-mod (u + j) n)

as_size-small : (w : ℕ) → w < 2 ^ 31 → as_size (w % 2 ^ 32) ≡ w
unfolding as_size
as_size-small w h = ground arith

module _ {M : Type 0} where
  next_index-small :
      (k : Client M)
      → k.use_index + 1 < 2 ^ 31
      → next_index k ≡ (k.use_index + 1) % length k.connections
  unfolding next_index
  next_index-small k h = ap (λ x. x % length k.connections) (as_size-small (k.use_index + 1) h)

  -- A client that has got that far.
  abbrev advanced : ℕ → List Task → Client M → Client M
  advanced u ts k = record k { use_index = u; tasks = ts }

  abbrev pub after_one : ℕ → Client M → Client M
  after_one q k =
      advanced (k.use_index + 1)
        (k.tasks ++ start_query_on ((k.use_index + 1) % length k.connections) q ∷ []) k

  pub one_query :
      (b : Bool) (q : ℕ) (k : Client M)
      → 0 < length k.connections
      → AllReady k.connections
      → k.use_index + 1 < 2 ^ 31
      → pending_query b q k ≡ ok (after_one q k)
  unfolding pending_query get_client dispatch_query post
  one_query b q k p r h =
      let (c, e) = get_elem?-in k.connections (next_index k) (unfold next_index in omega arith) in
      rw (e, ready_at k.connections (next_index k) c r e)
        (ap ok (
          ap (λ i. advanced ((k.use_index + 1) % 2 ^ 32) (k.tasks ++ start_query_on i q ∷ []) k)
            (next_index-small k h)
          ∙ ap
              (λ u.
                advanced u
                  (k.tasks ++ start_query_on ((k.use_index + 1) % length k.connections) q ∷ []) k)
              (omega arith)))

  -- With at least one connection, as long as use_index_ does not run over and all
  -- connections are ready, queries go to the connections in turn, whatever their number and
  -- that of the connections.
  pub pending_queries-round_robin :
      (in_loop : Bool) (qs : List ℕ) (k : Client M)
      → 0 < length k.connections
      → AllReady k.connections
      → k.use_index + length qs < 2 ^ 31
      → pending_queries in_loop qs k
        ≡ ok (record k {
          use_index = k.use_index + length qs;
          tasks = k.tasks ++ round_robin (length k.connections) k.use_index qs;
        })
  unfolding pending_queries
  pending_queries-round_robin b [] k p r h = ap ok (
      sym (
        ap (λ u. advanced u (k.tasks ++ []) k) (omega arith)
        ∙ ap (λ ts. advanced k.use_index ts k) (append-nil k.tasks)))
  pending_queries-round_robin b (q ∷ qs) k p r h =
      ap (λ o. o >>= pending_queries b qs) (one_query b q k p r (omega arith))
      ∙ pending_queries-round_robin b qs (after_one q k) p r (omega arith)
      ∙ ap ok (
          ap
            (λ u.
              advanced u
                ((k.tasks ++ start_query_on ((k.use_index + 1) % length k.connections) q ∷ [])
                  ++ round_robin (length k.connections) (k.use_index + 1) qs)
                k)
            (omega arith)
          ∙ ap (λ ts. advanced (k.use_index + suc (length qs)) ts k)
              (append_assoc k.tasks
                (start_query_on ((k.use_index + 1) % length k.connections) q ∷ [])
                (round_robin (length k.connections) (k.use_index + 1) qs)))
